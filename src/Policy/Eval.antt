-- ===== src/Policy/Eval.antt =====
-- What the evaluation of a condition reads and changes: the request, the world outside, and the
-- state that outlives one condition. An evaluation may raise.
pub mod Returns
use cloudmorph_tessera.Prelude.{
  ℕ, String, Bool, true, false, Option, List, [], ◌∷◌, ℤ, if◌then◌else◌, ◌≡◌, ap,
}
use cloudmorph_tessera.Dict.{Dict}
use cloudmorph_tessera.Python.Result.{Exception, Result, ok, err}
use cloudmorph_tessera.Python.Value.{Value, Fields}
use cloudmorph_tessera.Cost.Combinations.{Tracker}

-- the end of a regex search; `raised b` is another exception, whose text names a timeout if `b`
pub data Search : Type 0 where
  found absent timed_out : Search
  raised : Bool → Search

pub record CostResult (F : Type 0) : Type 0 where
  pub price_usd : Option F
  pub source : String

-- What the program calls and does not implement; `none` stands for a call that raises.
pub record Host (F : Type 0) : Type 0 where
  -- `str(v)` where `v` is no text, and `int(s)`
  pub str_of : Value F → String
  pub int_of : String → Option ℤ
  -- the `regex` library
  pub search : String → String → Search
  -- `fnmatch.fnmatch(name, pattern)`
  pub fnmatch : String → String → Bool
  pub jmespath : String → Fields F → Option (Value F)
  -- the hour and the minute in a zone, `none` if there is no such zone
  pub wall_clock : String → Option (ℕ × ℕ)
  -- `sha256(statement.encode("utf-8")).hexdigest()[:16]`, `none` for UnicodeEncodeError
  pub stmt_hash : String → Option String
  -- boto3, if it is installed: the length of an object, and the records of a statement
  pub s3_head : Option (String → String → Option ℤ)
  pub rds_execute : Option (String → String → String → String → Option (List (List (Fields F))))
  -- the readings of the tracker's clock
  pub time_fn : ℕ → F

-- the request context
pub record Context (F : Type 0) : Type 0 where
  pub tool_name : String
  pub arguments : Fields F
  pub meta : Option (Value F)
  pub intent : Option (Fields F)
  pub upstream : String
  pub lockdown : Bool
  -- `cost_cache`: `none` if the key is missing
  pub cost_cache : Option (Dict String (CostResult F))
  pub blast_radius_cache : Dict String ℤ
  pub blast_radius_backend : Option (String → Fields F → Option ℤ)
  pub cumulative_spend_today_usd : Option F
  pub state_backend : Option (String → Option F)
  pub tenant_id : Option String
  pub scope : Option String
  pub scope_id : Option String
  -- the user's and the built-in table of action verbs
  pub user_mappings : Dict String (List String)
  pub action_verbs : Dict String (List String)
  -- `cli_translator.from_call_aws`
  pub from_call_aws : Fields F → Option String

-- what evaluation changes: the tagged errors, the two caches of sizes, the tracker, and the number
-- of readings of its clock
pub record World (F : Type 0) : Type 0 where
  pub errors : List String
  pub effective_tool_name : Option String
  pub size_cache : Option (Dict String ℤ)
  pub lru : Dict String ℤ
  pub tracker : Option (Tracker F)
  pub readings : ℕ

abbrev pub Eval : Type 0 → Type 0 → Type 0
Eval F A = World F → Result A × World F

module _ {F : Type 0} {A : Type 0} where
  abbrev pub pure : A → Eval F A
  pure a w = (ok a, w)

  abbrev pub lift : Result A → Eval F A
  lift r w = (r, w)

  abbrev pub gets : (World F → A) → Eval F A
  gets f w = (ok (f w), w)

-- the rest of a block, at the end of its first step
abbrev pub continue : {F A B : Type 0} → (A → Eval F B) → Result A × World F → Result B × World F
continue f p = elim p.0 [ ok a ↦ f a p.1 | err x ↦ (err x, p.1) ]

infixl 5 ◌>>=◌ ◌>>◌
abbrev pub ◌>>=◌ : {F A B : Type 0} → Eval F A → (A → Eval F B) → Eval F B
◌>>=◌ m f w = continue f (m w)

pub >>=_ok :
    {F A B : Type 0} (m : Eval F A) (f : A → Eval F B) {w w' : World F} {a : A}
    → m w ≡ (ok a, w')
    → (m >>= f) w ≡ f a w'
>>=_ok m f h = ap (continue f) h

pub >>=_err :
    {F A B : Type 0} (m : Eval F A) (f : A → Eval F B) {w w' : World F} {x : Exception}
    → m w ≡ (err x, w')
    → (m >>= f) w ≡ (err x, w')
>>=_err m f h = ap (continue f) h

abbrev pub ◌>>◌ : {F B : Type 0} → Eval F (Unit {0}) → Eval F B → Eval F B
m >> k = m >>= λ _. k

abbrev pub modify : {F : Type 0} → (World F → World F) → Eval F (Unit {0})
modify f w = (ok tt, f w)

-- `any(...)` over a list: the first `True` ends it
unfoldable pub any_of_list : {F A : Type 0} → (A → Eval F Bool) → List A → Eval F Bool
any_of_list test [] = pure false
any_of_list test (x ∷ xs) = do hit ← test x; if hit then pure true else any_of_list test xs
