-- ===== src/Policy/Schema.antt =====
-- tessera/policy/schema.py: the models of a policy file, after validation. A compiled pattern is
-- that of the text beside it, so it is not a field of its own.
use cloudmorph_tessera.Prelude.{String, Bool, Option, List, ℤ}
use cloudmorph_tessera.Python.Value.{Value}

pub data Action : Type 0 where
  allow block log_only require_approval : Action

pub record MatchSpec : Type 0 where
  pub upstream : String
  pub tool : Option String
  pub tool_pattern : Option String
  pub require_intent : Bool

pub data Band : Type 0 where
  high medium ceiling : Band

pub data Operator : Type 0 where
  greater_than less_than : Operator

-- the operators of `predicted_cost`
pub data Range (F : Type 0) : Type 0 where
  above below : Range F
  between : Option F → Range F

pub data Estimator : Type 0 where
  s3_get_byte_estimate rds_query_result_estimate static_arg_size : Estimator

-- the union `ConditionType`, a constructor for each model
mutual
  pub data Condition (F : Type 0) : Type 0 where
    arg_equals : String → Value F → Condition F
    arg_greater_than : String → Value F → Condition F
    arg_less_than : String → Value F → Condition F
    arg_matches_regex : String → String → Condition F
    arg_in_set : String → List (Value F) → Condition F
    arg_contains_pattern : String → String → Condition F
    arg_size_greater_than : String → ℤ → Condition F
    tool_name_in : List String → Condition F
    action_class_in : List String → Condition F
    intent_class_in : List String → Condition F
    intent_purpose_matches : String → Condition F
    region_in : String → List String → Condition F
    time_of_day_outside : String → String → String → Condition F
    meta_field_equals : String → Value F → Condition F
    any_of : Conditions F → Condition F
    none_of : Conditions F → Condition F
    predicted_cost : F → Band → Range F → Condition F
    blast_radius : ℤ → List String → Operator → Condition F
    affected_resource_count : String → ℤ → Operator → Condition F
    data_volume : ℤ → Operator → Estimator → Condition F
    cumulative_spend_today : F → Operator → Condition F
    arg_path_matches_regex : String → String → Condition F
    sts_chain_depth_greater_than : ℤ → Condition F
    combination_aggregate_cost_usd_gt : F → Option String → Condition F
    combination_ops_count_gt : ℤ → Option String → Condition F
    combination_window_seconds_lt : F → String → Condition F
    combination_id_matches : String → Condition F

  pub data Conditions (F : Type 0) : Type 0 where
    done : Conditions F
    also : Condition F → Conditions F → Conditions F

pub record Policy (F : Type 0) : Type 0 where
  pub id : String
  pub name : String
  pub description : String
  pub match : MatchSpec
  pub when : Conditions F
  pub action : Action
  pub reason : String
  pub priority : ℤ

pub record Decision : Type 0 where
  pub action : Action
  pub reason : String
  pub policy_id : Option String
  pub decision_error : Option String
