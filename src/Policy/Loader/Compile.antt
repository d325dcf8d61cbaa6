-- ===== src/Policy/Loader/Compile.antt =====
-- tessera/policy/loader.py: what a policy goes through once its file is read. Validation of the models
-- and the regex library are parameters.
use cloudmorph_tessera.Prelude.{String, Bool, Option, none, some, string_eq}
use cloudmorph_tessera.Python.Result.{Result, ok, err, policy_error, value_error, ◌>>=◌}
use cloudmorph_tessera.Python.Value.{Value, Fields, dict}
use cloudmorph_tessera.Policy.Schema.{
  Policy, Condition, Conditions, done, also, arg_matches_regex, arg_contains_pattern,
  arg_path_matches_regex, intent_purpose_matches, any_of, none_of,
}
use cloudmorph_tessera.Policy.RegexSafety.{Search, validate_pattern}
use cloudmorph_tessera.Policy.Loader.{sort_conditions}

module _ (compiles : String → Bool) (search : String → String → Search) where
  abbrev pub compile_given : Option String → Result {0} Unit
  compile_given none = ok tt
  compile_given (some pattern) = validate_pattern compiles search pattern

module _ {F : Type 0} (compiles : String → Bool) (search : String → String → Search) where
  unfoldable mutual
    unfolding validate_pattern

    pub compile_conditions : Conditions F → Result {0} Unit
    compile_conditions done = ok tt
    compile_conditions (also c conds) = compile_condition c >>= λ _. compile_conditions conds

    pub compile_condition : Condition F → Result {0} Unit
    compile_condition (arg_matches_regex arg pattern) = validate_pattern compiles search pattern
    compile_condition (arg_contains_pattern arg pattern) = validate_pattern compiles search pattern
    compile_condition (arg_path_matches_regex path pattern) =
        validate_pattern compiles search pattern
    compile_condition (intent_purpose_matches pattern) = validate_pattern compiles search pattern
    compile_condition (any_of conditions) = compile_conditions conditions
    compile_condition (none_of conditions) = compile_conditions conditions
    compile_condition _ = ok tt

  unfoldable pub compile_regex_fields : Policy F → Result {0} Unit
  unfolding compile_conditions validate_pattern
  compile_regex_fields p =
      compile_given compiles search p.match.tool_pattern >>= λ compiled. compile_conditions p.when

  module _ (model_validate : Fields F → Option (Policy F)) where
    -- the body of the `try` in `_load_file`
    unfoldable pub policy_of : Value F → Result (Policy F)
    unfolding compile_regex_fields sort_conditions
    policy_of (dict raw) = elim (model_validate raw) [
      | none ↦ err value_error
      | some p ↦ compile_regex_fields p >>= λ _. ok (record p { when = sort_conditions p.when })
    ]
    policy_of _ = err (policy_error "policy file must be a YAML mapping")
