-- ===== src/Policy/Cloud/Rows.antt =====
-- tessera/policy/cloud_loader.py: `CloudBackedPolicyLoader` over the rows of the cache. YAML, validation of
-- the models and the regex library are parameters. An error stands for its message.
use Prim.Native.Char.{code}
use cloudmorph_tessera.Prelude.{
  ℕ, String, Bool, not, ◌&&◌, Option, none, some, List, [], ◌∷◌, ◌++◌, length, ◌==◌, string_eq,
  if◌then◌else◌,
}
use cloudmorph_tessera.Dict
use cloudmorph_tessera.Dict.{Dict}
use cloudmorph_tessera.Python.Result.{Exception, Result, ok, err, policy_error, ◌>>=◌}
use cloudmorph_tessera.Python.Value.{Value}
use cloudmorph_tessera.Python.Words.{is_space}
use cloudmorph_tessera.Policy.Schema.{Policy}
use cloudmorph_tessera.Policy.Loader.Compile.{policy_of}
use cloudmorph_tessera.Policy.Loader.Files.{Libraries, is_caught}

-- `s.lstrip()`, `s.rstrip()` and `s.strip()`
unfoldable pub lstrip : String → String
unfolding is_space
lstrip String.[] = String.[]
lstrip (String.◌∷◌ c s) = let rest = lstrip s in if is_space (code c) then rest else String.◌∷◌ c s

unfoldable pub rstrip : String → String
unfolding is_space
rstrip String.[] = String.[]
rstrip (String.◌∷◌ c s) =
    let rest = rstrip s in if is_space (code c) && rest == "" then String.[] else String.◌∷◌ c rest

unfoldable pub strip : String → String
unfolding lstrip rstrip
strip s = rstrip (lstrip s)

-- a row of the table `policies`
pub record CloudRow : Type 0 where
  pub policy_id : Option String
  pub enabled : Bool
  pub yaml_text : Option String

pub record CloudBackedPolicyLoader : Type 0 where
  pub cloud_errors : Dict String Exception
  pub cloud_count : ℕ

-- `row.get("policy_id") or "<unknown>"`
abbrev pub id_given : Option String → String
id_given none = "<unknown>"
id_given (some pid) = if pid == "" then "<unknown>" else pid

-- `row.get("yaml_text") or ""`
abbrev pub text_given : Option String → String
text_given none = ""
text_given (some text) = text

unfoldable pub body_of : CloudRow → String
unfolding strip
body_of row = strip (text_given row.yaml_text)

abbrev pub empty_body : Exception
empty_body = policy_error "empty yaml_text (no policy body synced from cloud)"

-- the policies so far, and the loader
abbrev pub Loaded : Type 0 → Type 0
Loaded F = List (Policy F) × CloudBackedPolicyLoader

module _ {F : Type 0} where
  -- the `try` in `_load_cloud_policies`, from its outcome, and what it raises
  abbrev pub gathered : String → Result (Policy F) → Loaded F → Option Exception × Loaded F
  gathered pid (ok p) (out, l) = (none, (out ++ p ∷ [], l))
  gathered pid (err x) (out, l) =
      if is_caught x
      then (none, (out, record l { cloud_errors = Dict.put pid x l.cloud_errors }))
      else (some x, (out, l))

  -- the end of `_load_cloud_policies`
  abbrev pub counted_out :
      Option Exception × Loaded F → Result (List (Policy F)) × CloudBackedPolicyLoader
  counted_out (none, (out, l)) = (ok out, record l { cloud_count = length out })
  counted_out (some x, (out, l)) = (err x, l)

module _ {F : Type 0} (lib : Libraries F) (safe_load : String → Result (Value F)) where
  unfoldable pub parse_policy_yaml : String → Result (Policy F)
  unfolding policy_of
  parse_policy_yaml yaml_text =
      safe_load yaml_text >>= policy_of lib.compiles lib.search lib.model_validate

  unfoldable pub load_row : CloudRow → Loaded F → Option Exception × Loaded F
  unfolding body_of parse_policy_yaml is_caught Dict.put
  load_row row (out, l) =
      if not row.enabled
      then (none, (out, l))
      else if body_of row == ""
      then gathered (id_given row.policy_id) (err empty_body) (out, l)
      else gathered (id_given row.policy_id) (parse_policy_yaml (body_of row)) (out, l)

  unfoldable pub load_rows : List CloudRow → Loaded F → Option Exception × Loaded F
  unfolding load_row
  load_rows [] s = (none, s)
  load_rows (row ∷ rows) s =
      let (raised, s') = load_row row s in
      elim raised [ none ↦ load_rows rows s' | some x ↦ (some x, s') ]

  -- `_load_cloud_policies`
  unfoldable pub load_cloud_policies :
      List CloudRow → CloudBackedPolicyLoader → Result (List (Policy F)) × CloudBackedPolicyLoader
  unfolding load_rows
  load_cloud_policies rows l = counted_out (load_rows rows ([], record l { cloud_errors = [] }))
