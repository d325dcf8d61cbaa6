-- ===== src/Policy/Conditions.antt =====
-- tessera/policy/conditions.py: `evaluate_condition`, the dispatch over the types of condition. An
-- evaluator without state is lifted; one that cannot raise is `pure`.
pub mod Arguments
pub mod Request
pub mod Backends
pub mod Volume
pub mod Combination
pub mod Clock
pub mod Returns
pub mod Closed
pub mod Sync
use cloudmorph_tessera.Prelude.{String, Bool, true, false, not, if◌then◌else◌}
use cloudmorph_tessera.Python.Float.{Float}
use cloudmorph_tessera.Policy.Schema.{
  Condition, Conditions, done, also, arg_equals, arg_greater_than, arg_less_than, arg_matches_regex,
  arg_in_set, arg_contains_pattern, arg_size_greater_than, tool_name_in, action_class_in,
  intent_class_in, intent_purpose_matches, region_in, time_of_day_outside, meta_field_equals,
  any_of, none_of, predicted_cost, blast_radius, affected_resource_count, data_volume,
  cumulative_spend_today, arg_path_matches_regex, sts_chain_depth_greater_than,
  combination_aggregate_cost_usd_gt, combination_ops_count_gt, combination_window_seconds_lt,
  combination_id_matches,
}
use cloudmorph_tessera.Policy.Eval.{Host, Context, Eval, pure, lift, ◌>>=◌}
use Arguments.{
  eval_arg_equals, eval_arg_greater_than, eval_arg_less_than, eval_arg_matches_regex,
  eval_arg_in_set, eval_arg_size_greater_than, eval_arg_path_matches_regex, eval_region_in,
  eval_meta_field_equals, eval_sts_chain_depth_greater_than,
}
use Request.{
  eval_tool_name_in, eval_action_class_in, eval_intent_class_in, eval_intent_purpose_matches,
  eval_time_of_day_outside,
}
use Backends.{
  eval_predicted_cost, eval_blast_radius, eval_affected_resource_count, eval_cumulative_spend_today,
}
use Volume.{eval_data_volume}
use Combination.{
  eval_combination_aggregate_cost_usd_gt, eval_combination_ops_count_gt,
  eval_combination_window_seconds_lt, eval_combination_id_matches,
}

module _ {F : Type 0} ⦃fl : Float F⦄ (host : Host F) (c : Context F) (policy_id : String) where
  unfoldable mutual
    pub evaluate_condition : Condition F → Eval F Bool
    evaluate_condition (arg_equals arg value) = pure (eval_arg_equals arg value c)
    evaluate_condition (arg_greater_than arg value) = eval_arg_greater_than arg value c
    evaluate_condition (arg_less_than arg value) = eval_arg_less_than arg value c
    evaluate_condition (arg_matches_regex arg pattern) =
        eval_arg_matches_regex host policy_id arg pattern c
    evaluate_condition (arg_in_set arg allowed) = pure (eval_arg_in_set arg allowed c)
    evaluate_condition (arg_contains_pattern arg pattern) =
        eval_arg_matches_regex host policy_id arg pattern c
    evaluate_condition (arg_size_greater_than arg bytes) =
        pure (eval_arg_size_greater_than arg bytes c)
    evaluate_condition (tool_name_in names) = eval_tool_name_in names c
    evaluate_condition (action_class_in classes) = pure (eval_action_class_in classes c)
    evaluate_condition (intent_class_in classes) = lift (eval_intent_class_in classes c.intent)
    evaluate_condition (intent_purpose_matches pattern) =
        eval_intent_purpose_matches host policy_id pattern c.intent
    evaluate_condition (region_in arg regions) = pure (eval_region_in host arg regions c)
    evaluate_condition (time_of_day_outside opens closes tz) =
        lift (eval_time_of_day_outside host opens closes tz)
    evaluate_condition (meta_field_equals key value) =
        pure (eval_meta_field_equals key value c.meta)
    evaluate_condition (any_of conditions) = evaluate_any conditions
    evaluate_condition (none_of conditions) = do hit ← evaluate_any conditions; pure (not hit)
    evaluate_condition (predicted_cost threshold band range) =
        lift (eval_predicted_cost threshold band range c)
    evaluate_condition (blast_radius threshold types operator) =
        pure (eval_blast_radius threshold types operator c)
    evaluate_condition (affected_resource_count arg threshold operator) =
        pure (eval_affected_resource_count host arg threshold operator c)
    evaluate_condition (data_volume threshold operator estimator) =
        eval_data_volume host threshold operator estimator c
    evaluate_condition (cumulative_spend_today threshold operator) =
        pure (eval_cumulative_spend_today threshold operator c)
    evaluate_condition (arg_path_matches_regex arg_path pattern) =
        eval_arg_path_matches_regex host policy_id arg_path pattern c
    evaluate_condition (sts_chain_depth_greater_than threshold) =
        pure (eval_sts_chain_depth_greater_than threshold c.meta)
    evaluate_condition (combination_aggregate_cost_usd_gt threshold combination) =
        eval_combination_aggregate_cost_usd_gt host threshold combination c
    evaluate_condition (combination_ops_count_gt threshold combination) =
        eval_combination_ops_count_gt host threshold combination c
    evaluate_condition (combination_window_seconds_lt threshold combination) =
        eval_combination_window_seconds_lt host threshold combination c
    evaluate_condition (combination_id_matches combination) =
        eval_combination_id_matches host combination c

    -- `any(...)`: the first `True` ends it
    pub evaluate_any : Conditions F → Eval F Bool
    evaluate_any done = pure false
    evaluate_any (also cond conds) = do
      hit ← evaluate_condition cond
      if hit then pure true else evaluate_any conds

  -- `all(...)`: the first `False` ends it
  unfoldable pub evaluate_conditions : Conditions F → Eval F Bool
  evaluate_conditions done = pure true
  evaluate_conditions (also cond conds) = do
    hit ← evaluate_condition cond
    if hit then evaluate_conditions conds else pure false
