-- ===== src/Policy/Conditions/Request.antt =====
-- tessera/policy/conditions.py: the conditions on the tool, the intent and the time of day.
use Prim.Native.Char.{code}
use cloudmorph_tessera.Prelude.{
  ℕ, ◌+◌, ◌*◌, String, Bool, true, false, not, ◌&&◌, ◌||◌, Option, none, some, List, [], ◌∷◌, any,
  contains, leb, ltb, nat_beq, ◌==◌, string_eq, if◌then◌else◌, ℤ, pos,
}
use cloudmorph_tessera.Dict
use cloudmorph_tessera.Dict.{Dict}
use cloudmorph_tessera.Python.Result.{
  Result, ok, err, type_error, value_error, index_error, ◌>>=◌ as bind,
}
use cloudmorph_tessera.Python.Value.{
  Value, Values, Fields, null, str, list, dict, nil, cons, end, field, get,
}
use cloudmorph_tessera.Python.Text.{split}
use cloudmorph_tessera.Policy.Eval.{Host, Context, Eval, pure, gets}
use cloudmorph_tessera.Policy.Conditions.Arguments.{match_regex, text_of}

-- `s.replace(".", "_")`
unfoldable pub underscored : String → String
underscored String.[] = String.[]
underscored (String.◌∷◌ c s) =
    let rest = underscored s in
    if nat_beq (code c) b'.' then String.◌∷◌ "_" rest else String.◌∷◌ c rest

-- one table of `verbs_for` (policy/action_verbs.py): the action, then its name with underscores
unfoldable pub table_verbs : String → Dict String (List String) → Option (List String)
table_verbs action table = elim (Dict.get action table) [
  | some verbs ↦ some verbs
  | none ↦ if not (underscored action == action) then Dict.get (underscored action) table else none
]

-- `verbs_for`: the user's table comes first
unfoldable pub verbs_for :
    String → Dict String (List String) → Dict String (List String) → List String
verbs_for action user builtin = elim (table_verbs action user) [
  | some verbs ↦ verbs
  | none ↦ elim (table_verbs action builtin) [ none ↦ [] | some verbs ↦ verbs ]
]

-- `a & b` of two sets is not empty
unfoldable pub meets : List String → List String → Bool
meets xs ys = any (λ x. contains x ys) xs

unfoldable pub eval_action_class_in : {F : Type 0} → List String → Context F → Bool
eval_action_class_in classes c =
    meets (verbs_for c.tool_name c.user_mappings c.action_verbs) classes

unfoldable pub eval_tool_name_in : {F : Type 0} → List String → Context F → Eval F Bool
eval_tool_name_in names c = gets (λ w.
    if contains c.tool_name names then true else elim w.effective_tool_name [
      | none ↦ false
      | some effective ↦ not (effective == c.tool_name) && contains effective names
    ])

-- the characters of a text, as texts
unfoldable pub letters : String → List String
letters String.[] = []
letters (String.◌∷◌ c t) = (String.◌∷◌ c String.[]) ∷ letters t

-- `time(hour, minute)`, as minutes after midnight
unfoldable pub to_time : ℤ → ℤ → Result ℕ
to_time (pos h) (pos m) = if ltb h 24 && ltb m 60 then ok (h * 60 + m) else err value_error
to_time _ _ = err value_error

-- outside `[start, end]`, which wraps at midnight where `end < start`
unfoldable pub is_outside : ℕ → ℕ → ℕ → Bool
is_outside opens closes now =
    if leb opens closes
    then not (leb opens now && leb now closes)
    else not (leb opens now || leb now closes)

module _ {F : Type 0} where
  -- `set(verbs)` of a list: a list or a dict in it cannot be hashed; only texts can meet texts
  unfoldable pub verb_texts : Values F → Result (List String)
  verb_texts nil = ok []
  verb_texts (cons (str s) vs) = bind (verb_texts vs) (λ ss. ok (s ∷ ss))
  verb_texts (cons (list _) vs) = err type_error
  verb_texts (cons (dict _) vs) = err type_error
  verb_texts (cons _ vs) = verb_texts vs

  unfoldable pub key_texts : Fields F → List String
  key_texts end = []
  key_texts (field k v fs) = k ∷ key_texts fs

  -- `set(intent.get("verbs", []))`, its texts
  unfoldable pub verb_set : Option (Value F) → Result (List String)
  verb_set none = ok []
  verb_set (some (list vs)) = verb_texts vs
  verb_set (some (dict fs)) = ok (key_texts fs)
  verb_set (some (str s)) = ok (letters s)
  verb_set (some _) = err type_error

  unfoldable pub eval_intent_class_in : List String → Option (Fields F) → Result Bool
  eval_intent_class_in classes none = ok false
  eval_intent_class_in classes (some intent) =
      bind (verb_set (get "verbs" intent)) (λ verbs. ok (meets verbs classes))

module _ {F : Type 0} (host : Host F) where
  unfoldable pub purpose_matches : String → String → Option (Value F) → Eval F Bool
  purpose_matches policy_id pattern none = pure false
  purpose_matches policy_id pattern (some null) = pure false
  purpose_matches policy_id pattern (some purpose) =
      match_regex host policy_id pattern (text_of host purpose)

  unfoldable pub eval_intent_purpose_matches : String → String → Option (Fields F) → Eval F Bool
  eval_intent_purpose_matches policy_id pattern none = pure false
  eval_intent_purpose_matches policy_id pattern (some intent) =
      purpose_matches policy_id pattern (get "purpose" intent)

  unfoldable pub to_int : String → Result ℤ
  to_int s = elim (host.int_of s) [ none ↦ err value_error | some n ↦ ok n ]

  -- `time(int(parts[0]), int(parts[1]))` of the parts of "HH:MM"
  unfoldable pub clock_of : List String → Result ℕ
  clock_of [] = err index_error
  clock_of (hour ∷ []) = bind (to_int hour) (λ _. err index_error)
  clock_of (hour ∷ minute ∷ _) = bind (to_int hour) (λ h. bind (to_int minute) (λ m. to_time h m))

  unfoldable pub eval_time_of_day_outside : String → String → String → Result Bool
  eval_time_of_day_outside opens closes tz = elim (host.wall_clock tz) [
    | none ↦ ok false
    | some (hour, minute) ↦ bind (clock_of (split b':' opens)) (λ from.
        bind (clock_of (split b':' closes))
          (λ until. ok (is_outside from until (hour * 60 + minute))))
  ]
