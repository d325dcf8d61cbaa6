-- ===== src/Policy/Conditions/Arguments.antt =====
-- tessera/policy/conditions.py: the conditions on the arguments of the call.
use Prim.Native.String.{◌++◌ as str_append}
use text.Mathlib.Text.{starts_with}
use cloudmorph_tessera.Prelude.{
  String, Bool, true, false, Option, none, some, List, [], ◌∷◌, ◌++◌, any, length, ◌==◌, string_eq,
  if◌then◌else◌, ℤ, pos, ltb_ℤ,
}
use cloudmorph_tessera.Python.Float.{Float}
use cloudmorph_tessera.Python.Result.{Result, ok, err, type_error, value_error, ◌>>=◌ as bind}
use cloudmorph_tessera.Python.Value.{
  Value, Fields, null, str, list, dict, get, values, items, value_eq, value_in,
}
use cloudmorph_tessera.Python.Text.{split, json_size, to_float}
use cloudmorph_tessera.Policy.Eval.{
  Host, Context, Eval, Search, found, absent, timed_out, raised, pure, lift, modify, any_of_list,
  ◌>>◌,
}

-- `_add_error`
unfoldable pub add_error : {F : Type 0} → String → Eval F Unit
add_error error = modify (λ w. record w { errors = w.errors ++ (error ∷ []) })

module _ {F : Type 0} where
  -- `_dot_path_get`: `none` where a part is missing or is read from what is no dict
  unfoldable pub walk_path : Value F → List String → Option (Value F)
  walk_path current [] = some current
  walk_path (dict fs) (part ∷ parts) = elim (get part fs) [
    | none ↦ none
    | some next ↦ walk_path next parts
  ]
  walk_path _ (part ∷ parts) = none

  unfoldable pub dot_path_get : Value F → String → Option (Value F)
  dot_path_get obj path = walk_path obj (split b'.' path)

  -- The values that a condition on `arg` looks at: all of them for "*".
  unfoldable pub selected : String → Fields F → List (Value F)
  selected arg arguments =
      if arg == "*"
      then values arguments
      else elim (get arg arguments) [ none ↦ [] | some v ↦ v ∷ [] ]

-- `except (TypeError, ValueError)`
unfoldable pub caught : Result Bool → Result Bool
caught (err type_error) = ok false
caught (err value_error) = ok false
caught r = r

-- `f"regex_timeout:{policy_id or 'unknown'}"`
unfoldable pub timeout_error : String → String
timeout_error policy_id =
    str_append "regex_timeout:" (if policy_id == "" then "unknown" else policy_id)

module _ {F : Type 0} (host : Host F) where
  -- `str(v)`
  unfoldable pub text_of : Value F → String
  text_of (str s) = s
  text_of v = host.str_of v

  -- `_match_regex`: a timeout is tagged, and no exception leaves it
  unfoldable pub tagged : String → Search → Eval F Bool
  tagged policy_id found = pure true
  tagged policy_id absent = pure false
  tagged policy_id timed_out = do add_error (timeout_error policy_id); pure false
  tagged policy_id (raised true) = do add_error (timeout_error policy_id); pure false
  tagged policy_id (raised false) = pure false

  unfoldable pub match_regex : String → String → String → Eval F Bool
  match_regex policy_id pattern text = tagged policy_id (host.search pattern text)

  -- `_evaluate_arg_matches_regex`, and `_evaluate_arg_contains_pattern`, its alias
  unfoldable pub eval_arg_matches_regex : String → String → String → Context F → Eval F Bool
  eval_arg_matches_regex policy_id arg pattern c =
      any_of_list (λ v. match_regex policy_id pattern (text_of v)) (selected arg c.arguments)

  unfoldable pub eval_arg_path_matches_regex : String → String → String → Context F → Eval F Bool
  eval_arg_path_matches_regex policy_id arg_path pattern c =
      elim (dot_path_get (dict c.arguments) arg_path) [
        | none ↦ pure false
        | some v ↦ match_regex policy_id pattern (text_of v)
      ]

  unfoldable pub eval_region_in : String → List String → Context F → Bool
  eval_region_in arg regions c =
      any (λ v. any (λ r. starts_with (text_of v) r) regions) (selected arg c.arguments)

module _ {F : Type 0} ⦃fl : Float F⦄ where
  unfoldable pub eval_arg_equals : String → Value F → Context F → Bool
  eval_arg_equals arg value c = any (λ v. value_eq v value) (selected arg c.arguments)

  unfoldable pub eval_arg_in_set : String → List (Value F) → Context F → Bool
  eval_arg_in_set arg allowed c = any (λ v. value_in v allowed) (selected arg c.arguments)

  unfoldable pub eval_arg_size_greater_than : String → ℤ → Context F → Bool
  eval_arg_size_greater_than arg bytes c =
      any (λ v. ltb_ℤ bytes (json_size v)) (selected arg c.arguments)

  -- `float(v) > float(w)`, with the left side converted first
  unfoldable pub float_gt : Value F → Value F → Result Bool
  float_gt v w = bind (to_float v) (λ x. bind (to_float w) (λ y. ok (fl.lt y x)))

  unfoldable pub float_lt : Value F → Value F → Result Bool
  float_lt v w = bind (to_float v) (λ x. bind (to_float w) (λ y. ok (fl.lt x y)))

  -- An exception that the handler does not name goes on to the caller.
  unfoldable pub eval_arg_greater_than : String → Value F → Context F → Eval F Bool
  eval_arg_greater_than arg value c =
      any_of_list (λ v. lift (caught (float_gt v value))) (selected arg c.arguments)

  unfoldable pub eval_arg_less_than : String → Value F → Context F → Eval F Bool
  eval_arg_less_than arg value c =
      any_of_list (λ v. lift (caught (float_lt v value))) (selected arg c.arguments)

  -- `_evaluate_meta_field_equals`
  unfoldable pub eval_meta_field_equals : String → Value F → Option (Value F) → Bool
  eval_meta_field_equals key value none = false
  eval_meta_field_equals key value (some null) = false
  eval_meta_field_equals key value (some meta) = elim (dot_path_get meta key) [
    | none ↦ false
    | some v ↦ value_eq v value
  ]

  unfoldable pub chain_exceeds : ℤ → Option (Value F) → Bool
  chain_exceeds threshold (some (list chain)) = ltb_ℤ threshold (pos (length (items chain)))
  chain_exceeds threshold _ = false

  -- `_evaluate_sts_chain_depth_greater_than`
  unfoldable pub eval_sts_chain_depth_greater_than : ℤ → Option (Value F) → Bool
  eval_sts_chain_depth_greater_than threshold (some (dict meta)) =
      chain_exceeds threshold (get "aws_session_chain" meta)
  eval_sts_chain_depth_greater_than threshold _ = false
