-- ===== src/Policy/RegexSafety.antt =====
-- tessera/policy/regex_safety.py. The regex library and the clock are parameters; the compiled pattern
-- stands for its text, and an exception for its message.
use cloudmorph_tessera.Prelude.{
  ℕ, zero, suc, String, Bool, true, false, List, [], ◌∷◌, if◌then◌else◌,
}
use cloudmorph_tessera.Python.Result.{Result, ok, err, policy_error, regex_error, ◌>>=◌}

-- a search under its timeout: whether it took 50 ms or more, or whether the error speaks of a timeout
pub data Search : Type 0 where
  searched : Bool → Search
  timed_out : Search
  broken : Bool → Search

-- `s * n` for a text, in front of another
abbrev pub repeated : ℕ → String → String → String
repeated zero s end = end
repeated (suc n) s end = joined s (repeated n s end)
  where
    joined : String → String → String
    joined String.[] t = t
    joined (String.◌∷◌ c r) t = String.◌∷◌ c (joined r t)

unfoldable pub corpus : List String
corpus =
    repeated 10 "a" ""
    ∷ repeated 50 "ab" ""
    ∷ repeated 111 "abc123_-." ""
    ∷ repeated 833 "xyzABC123!@#" ""
    ∷ repeated 5882 "hello world test " "X"
    ∷ []

module _ (compiles : String → Bool) (search : String → String → Search) where
  -- one text of the corpus
  abbrev pub checked : Search → Result {0} Unit
  checked (searched false) = ok tt
  checked (searched true) = err (policy_error "regex_potential_redos")
  checked timed_out = err (policy_error "regex_potential_redos")
  checked (broken true) = err (policy_error "regex_potential_redos")
  checked (broken false) = err regex_error

  unfoldable pub check_corpus : String → List String → Result {0} Unit
  check_corpus pattern [] = ok tt
  check_corpus pattern (s ∷ texts) = checked (search pattern s) >>= λ _. check_corpus pattern texts

  unfoldable pub validate_pattern : String → Result {0} Unit
  unfolding check_corpus corpus
  validate_pattern pattern =
      if compiles pattern then check_corpus pattern corpus else err (policy_error "regex_invalid")
