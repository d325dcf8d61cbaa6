-- ===== src/Policy/Engine/Counts.antt =====
-- Conditions that do not look at the counts of principals.
use cloudmorph_tessera.Prelude.{
  ◌≡◌, refl, sym, ap, ◌∙◌, String, true, false, not, Option, none, some, List, [], ◌∷◌, ℤ, or_split,
  if◌then◌else◌, string_eq, ap₂,
}
use cloudmorph_tessera.Dict.{Dict}
use cloudmorph_tessera.Python.Float.{Float}
use cloudmorph_tessera.Python.Value.{Fields}
use cloudmorph_tessera.Policy.Schema.{
  Operator, Condition, Conditions, done, also, arg_equals, arg_greater_than, arg_less_than,
  arg_matches_regex, arg_in_set, arg_contains_pattern, arg_size_greater_than, tool_name_in,
  action_class_in, intent_class_in, intent_purpose_matches, region_in, time_of_day_outside,
  meta_field_equals, any_of, none_of, predicted_cost, blast_radius, affected_resource_count,
  data_volume, cumulative_spend_today, arg_path_matches_regex, sts_chain_depth_greater_than,
  combination_aggregate_cost_usd_gt, combination_ops_count_gt, combination_window_seconds_lt,
  combination_id_matches,
}
use cloudmorph_tessera.Policy.Eval.{Host, Context, pure, ◌>>=◌}
use cloudmorph_tessera.Policy.Conditions.{evaluate_condition, evaluate_any, evaluate_conditions}
use cloudmorph_tessera.Policy.Conditions.Arguments.{
  eval_arg_equals, eval_arg_greater_than, eval_arg_less_than, eval_arg_matches_regex,
  eval_arg_in_set, eval_arg_size_greater_than, eval_region_in, eval_arg_path_matches_regex,
}
use cloudmorph_tessera.Policy.Conditions.Request.{eval_tool_name_in, eval_action_class_in}
use cloudmorph_tessera.Policy.Conditions.Backends.{
  is_irrelevant, eval_blast_radius, eval_affected_resource_count, eval_predicted_cost,
  eval_cumulative_spend_today, today_usd,
}
use cloudmorph_tessera.Policy.Conditions.Volume.{eval_data_volume}
use cloudmorph_tessera.Policy.Conditions.Combination.{
  eval_combination_aggregate_cost_usd_gt, eval_combination_ops_count_gt,
  eval_combination_window_seconds_lt, eval_combination_id_matches, scope_keys,
}
use cloudmorph_tessera.Policy.Engine.{targets, has_blast_radius_for, any_blast_radius_for}

-- the context with other counts of principals
abbrev pub with_counts :
    {F : Type 0} → Dict String ℤ → Option (String → Fields F → Option ℤ) → Context F → Context F
with_counts cache backend c = record c {
  blast_radius_cache = cache;
  blast_radius_backend = backend;
}

untargeted :
    (types : List String) (tool_name : String)
    → targets types tool_name ≡ false
    → is_irrelevant types tool_name ≡ true
unfolding targets is_irrelevant
untargeted [] tool_name h = cc
untargeted (t ∷ ts) tool_name h = rw h

module _ {F : Type 0} ⦃fl : Float F⦄ (host : Host F) (c : Context F) (cache : Dict String ℤ)
    (backend : Option (String → Fields F → Option ℤ)) where
  irrelevant :
      (x : ℤ) (y : List String) (z : Operator) (d : Context F)
      → is_irrelevant y d.tool_name ≡ true
      → eval_blast_radius x y z d ≡ false
  unfolding eval_blast_radius
  irrelevant x y z d h = rw h

  same_blast_radius :
      (x : ℤ) (y : List String) (z : Operator)
      → targets y c.tool_name ≡ false
      → eval_blast_radius x y z (with_counts cache backend c) ≡ eval_blast_radius x y z c
  same_blast_radius x y z h =
      irrelevant x y z (with_counts cache backend c) (untargeted y c.tool_name h)
      ∙ sym (irrelevant x y z c (untargeted y c.tool_name h))

module _ {F : Type 0} ⦃fl : Float F⦄ (host : Host F) (c : Context F) (policy_id : String)
    (cache : Dict String ℤ) (backend : Option (String → Fields F → Option ℤ)) where
  mutual
    unfolding evaluate_condition has_blast_radius_for eval_arg_equals eval_arg_greater_than
        eval_arg_less_than eval_arg_matches_regex eval_arg_in_set eval_arg_size_greater_than
        eval_tool_name_in eval_action_class_in eval_region_in eval_affected_resource_count
        eval_data_volume eval_predicted_cost eval_cumulative_spend_today today_usd
        eval_arg_path_matches_regex eval_combination_aggregate_cost_usd_gt
        eval_combination_ops_count_gt eval_combination_window_seconds_lt eval_combination_id_matches
        scope_keys

    same_condition :
        (cond : Condition F)
        → has_blast_radius_for c.tool_name cond ≡ false
        → evaluate_condition host (with_counts cache backend c) policy_id cond
          ≡ evaluate_condition host c policy_id cond
    same_condition (arg_equals x y) h = refl
    same_condition (arg_greater_than x y) h = refl
    same_condition (arg_less_than x y) h = refl
    same_condition (arg_matches_regex x y) h = refl
    same_condition (arg_in_set x y) h = refl
    same_condition (arg_contains_pattern x y) h = refl
    same_condition (arg_size_greater_than x y) h = refl
    same_condition (tool_name_in x) h = refl
    same_condition (action_class_in x) h = refl
    same_condition (intent_class_in x) h = refl
    same_condition (intent_purpose_matches x) h = refl
    same_condition (region_in x y) h = refl
    same_condition (time_of_day_outside x y z) h = refl
    same_condition (meta_field_equals x y) h = refl
    same_condition (any_of x) h = same_any x h
    same_condition (none_of x) h = ap (λ m. m >>= λ hit. pure (not hit)) (same_any x h)
    same_condition (predicted_cost x y z) h = refl
    same_condition (blast_radius x y z) h = ap pure (same_blast_radius host c cache backend x y z h)
    same_condition (affected_resource_count x y z) h = refl
    same_condition (data_volume x y z) h = refl
    same_condition (cumulative_spend_today x y) h = refl
    same_condition (arg_path_matches_regex x y) h = refl
    same_condition (sts_chain_depth_greater_than x) h = refl
    same_condition (combination_aggregate_cost_usd_gt x (some y)) h = refl
    same_condition (combination_aggregate_cost_usd_gt x none) h = refl
    same_condition (combination_ops_count_gt x (some y)) h = refl
    same_condition (combination_ops_count_gt x none) h = refl
    same_condition (combination_window_seconds_lt x y) h = refl
    same_condition (combination_id_matches x) h = refl

    same_any :
        (conds : Conditions F)
        → any_blast_radius_for c.tool_name conds ≡ false
        → evaluate_any host (with_counts cache backend c) policy_id conds
          ≡ evaluate_any host c policy_id conds
    same_any done h = refl
    same_any (also cond conds) h =
        ap₂ (λ m n. m >>= λ hit. if hit then pure true else n)
          (same_condition cond (or_split (has_blast_radius_for c.tool_name cond) _ h).0)
          (same_any conds (or_split (has_blast_radius_for c.tool_name cond) _ h).1)

  pub same_conditions :
      (conds : Conditions F)
      → any_blast_radius_for c.tool_name conds ≡ false
      → evaluate_conditions host (with_counts cache backend c) policy_id conds
        ≡ evaluate_conditions host c policy_id conds
  unfolding evaluate_conditions has_blast_radius_for
  same_conditions done h = refl
  same_conditions (also cond conds) h =
      ap₂ (λ m n. m >>= λ hit. if hit then n else pure false)
        (same_condition cond (or_split (has_blast_radius_for c.tool_name cond) _ h).0)
        (same_conditions conds (or_split (has_blast_radius_for c.tool_name cond) _ h).1)
