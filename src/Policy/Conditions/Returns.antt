-- ===== src/Policy/Conditions/Returns.antt =====
-- Which conditions cannot raise.
use cloudmorph_tessera.Prelude.{
  ◌≡◌, refl, String, Bool, true, false, not, ◌&&◌, Option, none, some, ℤ, if◌then◌else◌, string_eq,
  and_split,
}
use cloudmorph_tessera.Dict
use cloudmorph_tessera.Dict.{Dict}
use cloudmorph_tessera.Python.Float.{Float}
use cloudmorph_tessera.Python.Value.{Value, Fields, null, bool, int, float, str, list, dict, get}
use cloudmorph_tessera.Cost.Combinations.{Tracker}
use cloudmorph_tessera.Policy.Schema.{
  Condition, Conditions, done, also, Band, Range, Estimator, s3_get_byte_estimate,
  rds_query_result_estimate, static_arg_size, arg_equals, arg_greater_than, arg_less_than,
  arg_matches_regex, arg_in_set, arg_contains_pattern, arg_size_greater_than, tool_name_in,
  action_class_in, intent_class_in, intent_purpose_matches, region_in, time_of_day_outside,
  meta_field_equals, any_of, none_of, predicted_cost, blast_radius, affected_resource_count,
  data_volume, cumulative_spend_today, arg_path_matches_regex, sts_chain_depth_greater_than,
  combination_aggregate_cost_usd_gt, combination_ops_count_gt, combination_window_seconds_lt,
  combination_id_matches, Operator,
}
use cloudmorph_tessera.Policy.Eval.{
  Host, Context, CostResult, World, Eval, Search, found, absent, timed_out, raised, pure, lift,
  modify, gets, ◌>>◌,
}
use cloudmorph_tessera.Policy.Eval.Returns.{
  Returns, >>=-Returns, pure-Returns, modify-Returns, gets-Returns, any_of_list-Returns,
}
use cloudmorph_tessera.Policy.Conditions.{evaluate_condition, evaluate_any, evaluate_conditions}
use cloudmorph_tessera.Policy.Conditions.Arguments.{
  match_regex, tagged, add_error, text_of, dot_path_get, eval_arg_matches_regex,
  eval_arg_path_matches_regex,
}
use cloudmorph_tessera.Policy.Conditions.Request.{
  eval_tool_name_in, purpose_matches, eval_intent_purpose_matches,
}
use cloudmorph_tessera.Policy.Conditions.Backends.{eval_predicted_cost}
use cloudmorph_tessera.Policy.Conditions.Volume.{
  cached_or, remember_size, remember_both, shared_sizes, estimate_s3_object_size, byte_count,
  eval_data_volume,
}
use cloudmorph_tessera.Policy.Conditions.Combination.{
  query, asks, eval_combination_aggregate_cost_usd_gt, eval_combination_ops_count_gt,
  eval_combination_window_seconds_lt, eval_combination_id_matches,
}

module _ {F : Type 0} where
  tagged-Returns :
      (host : Host F) (policy_id : String) (s : Search) → Returns {F = F} (tagged host policy_id s)
  unfolding tagged add_error
  tagged-Returns host policy_id found = pure-Returns true
  tagged-Returns host policy_id absent = pure-Returns false
  tagged-Returns host policy_id timed_out =
      >>=-Returns (modify _) _ (modify-Returns _) (λ _. pure-Returns false)
  tagged-Returns host policy_id (raised true) =
      >>=-Returns (modify _) _ (modify-Returns _) (λ _. pure-Returns false)
  tagged-Returns host policy_id (raised false) = pure-Returns false

  cached_or-Returns :
      (key : String) (static : ℤ) (estimate : Option (ℤ × Bool))
      → Returns {F = F} (cached_or key static estimate)
  unfolding cached_or
  cached_or-Returns key static estimate = >>=-Returns (modify start) _ (modify-Returns start) (λ _.
      >>=-Returns (gets own_size) _ (gets-Returns own_size) (λ own.
        >>=-Returns (gets shared_size) _ (gets-Returns shared_size)
          (λ shared. looked_up own shared estimate)))
    where
      start : World F → World F
      start w = record w { size_cache = some (shared_sizes w) }

      own_size : World F → Option ℤ
      own_size w = Dict.get key (shared_sizes w)

      shared_size : World F → Option ℤ
      shared_size w = Dict.get key w.lru

      remembered : (f : World F → World F) (size : ℤ) → Returns (modify f >> pure size)
      remembered f size = >>=-Returns (modify f) _ (modify-Returns f) (λ _. pure-Returns size)

      looked_up :
          (own shared : Option ℤ) (estimate : Option (ℤ × Bool))
          → Returns {F = F} (elim own [
            | some size ↦ pure size
            | none ↦ elim shared [
              | some size ↦ (do modify (remember_size key size); pure size)
              | none ↦ elim estimate [
                | none ↦ pure static
                | some (size, keep) ↦
                    if keep then (do modify (remember_both key size); pure size) else pure size
              ]
            ]
          ])
      looked_up (some size) shared estimate = pure-Returns size
      looked_up none (some size) estimate = remembered _ size
      looked_up none none none = pure-Returns static
      looked_up none none (some (size, true)) = remembered _ size
      looked_up none none (some (size, false)) = pure-Returns size

  asks-Returns : (n : _) (ask : Tracker F → Bool × Tracker F) → Returns (asks n ask)
  unfolding asks
  asks-Returns n ask w = ((query n false ask w).0, (query n false ask w).1, refl)

module _ {F : Type 0} where
  -- The conditions that cannot raise: `float()` of a large integer, a set of verbs that cannot be
  -- hashed, a statement that has no UTF-8 and a malformed time of day can.
  unfoldable mutual
    pub is_total : Condition F → Bool
    is_total (arg_greater_than arg value) = false
    is_total (arg_less_than arg value) = false
    is_total (intent_class_in classes) = false
    is_total (time_of_day_outside opens closes tz) = false
    is_total (data_volume threshold operator rds_query_result_estimate) = false
    is_total (any_of conditions) = are_total conditions
    is_total (none_of conditions) = are_total conditions
    is_total _ = true

    pub are_total : Conditions F → Bool
    are_total done = true
    are_total (also cond conds) = is_total cond && are_total conds

module _ {F : Type 0} ⦃fl : Float F⦄ (host : Host F) (c : Context F) (policy_id : String) where
  match_regex-Returns : (pattern text : String) → Returns (match_regex host policy_id pattern text)
  unfolding match_regex
  match_regex-Returns pattern text = tagged-Returns host policy_id (host.search pattern text)

  arg_matches-Returns :
      (arg pattern : String) → Returns (eval_arg_matches_regex host policy_id arg pattern c)
  unfolding eval_arg_matches_regex
  arg_matches-Returns arg pattern =
      any_of_list-Returns _ _ (λ v. match_regex-Returns pattern (text_of host v))

  arg_path-Returns :
      (arg_path pattern : String)
      → Returns (eval_arg_path_matches_regex host policy_id arg_path pattern c)
  unfolding eval_arg_path_matches_regex
  arg_path-Returns arg_path pattern = read (dot_path_get (dict c.arguments) arg_path)
    where
      read :
          (o : Option (Value F))
          → Returns {F = F} (elim o [
            | none ↦ pure false
            | some v ↦ match_regex host policy_id pattern (text_of host v)
          ])
      read none = pure-Returns false
      read (some v) = match_regex-Returns pattern (text_of host v)

  purpose-Returns :
      (pattern : String) (intent : Option (Fields F))
      → Returns (eval_intent_purpose_matches host policy_id pattern intent)
  unfolding eval_intent_purpose_matches purpose_matches
  purpose-Returns pattern none = pure-Returns false
  purpose-Returns pattern (some intent) = stated (get "purpose" intent)
    where
      stated : (o : Option (Value F)) → Returns (purpose_matches host policy_id pattern o)
      stated none = pure-Returns false
      stated (some null) = pure-Returns false
      stated (some (bool b)) = match_regex-Returns pattern _
      stated (some (int n)) = match_regex-Returns pattern _
      stated (some (float x)) = match_regex-Returns pattern _
      stated (some (str s)) = match_regex-Returns pattern _
      stated (some (list vs)) = match_regex-Returns pattern _
      stated (some (dict fs)) = match_regex-Returns pattern _

  if-Returns :
      {A : Type 0} (b : Bool) (m n : Eval F A)
      → Returns m
      → Returns n
      → Returns (if b then m else n)
  if-Returns true m n h k = h
  if-Returns false m n h k = k

  byte_count-Returns :
      (threshold : ℤ) (operator : Operator) (estimator : Estimator) (args : Fields F)
      → is_total {F = F} (data_volume threshold operator estimator) ≡ true
      → Returns (byte_count host estimator args)
  unfolding byte_count estimate_s3_object_size is_total
  byte_count-Returns threshold operator s3_get_byte_estimate args t =
      if-Returns _ _ _ (pure-Returns _) (cached_or-Returns _ _ _)
  byte_count-Returns threshold operator rds_query_result_estimate args t = cc
  byte_count-Returns threshold operator static_arg_size args t = pure-Returns _

  predicted-Returns :
      (cache : Dict String (CostResult F)) (threshold : F) (band : Band) (range : Range F)
      → c.cost_cache ≡ some cache
      → Returns {F = F} (lift (eval_predicted_cost threshold band range c))
  unfolding eval_predicted_cost
  predicted-Returns cache threshold band range h = rw h (pure-Returns _)

  mutual
    unfolding evaluate_condition is_total eval_tool_name_in eval_data_volume
        eval_combination_aggregate_cost_usd_gt eval_combination_ops_count_gt
        eval_combination_window_seconds_lt eval_combination_id_matches

    evaluate_condition-Returns :
        (cache : Dict String (CostResult F))
        → c.cost_cache ≡ some cache
        → (cond : Condition F) → is_total cond ≡ true
        → Returns (evaluate_condition host c policy_id cond)
    evaluate_condition-Returns cache h (arg_equals arg value) t = pure-Returns _
    evaluate_condition-Returns cache h (arg_greater_than arg value) t = cc
    evaluate_condition-Returns cache h (arg_less_than arg value) t = cc
    evaluate_condition-Returns cache h (arg_matches_regex arg pattern) t =
        arg_matches-Returns arg pattern
    evaluate_condition-Returns cache h (arg_in_set arg allowed) t = pure-Returns _
    evaluate_condition-Returns cache h (arg_contains_pattern arg pattern) t =
        arg_matches-Returns arg pattern
    evaluate_condition-Returns cache h (arg_size_greater_than arg bytes) t = pure-Returns _
    evaluate_condition-Returns cache h (tool_name_in names) t = gets-Returns _
    evaluate_condition-Returns cache h (action_class_in classes) t = pure-Returns _
    evaluate_condition-Returns cache h (intent_class_in classes) t = cc
    evaluate_condition-Returns cache h (intent_purpose_matches pattern) t =
        purpose-Returns pattern c.intent
    evaluate_condition-Returns cache h (region_in arg regions) t = pure-Returns _
    evaluate_condition-Returns cache h (time_of_day_outside opens closes tz) t = cc
    evaluate_condition-Returns cache h (meta_field_equals key value) t = pure-Returns _
    evaluate_condition-Returns cache h (any_of conditions) t =
        evaluate_any-Returns cache h conditions t
    evaluate_condition-Returns cache h (none_of conditions) t =
        >>=-Returns (evaluate_any host c policy_id conditions) _
          (evaluate_any-Returns cache h conditions t) (λ hit. pure-Returns (not hit))
    evaluate_condition-Returns cache h (predicted_cost threshold band range) t =
        predicted-Returns cache threshold band range h
    evaluate_condition-Returns cache h (blast_radius threshold types operator) t = pure-Returns _
    evaluate_condition-Returns cache h (affected_resource_count arg threshold operator) t =
        pure-Returns _
    evaluate_condition-Returns cache h (data_volume threshold operator estimator) t =
        >>=-Returns (byte_count host estimator c.arguments) _
          (byte_count-Returns threshold operator estimator c.arguments t) (λ bytes. pure-Returns _)
    evaluate_condition-Returns cache h (cumulative_spend_today threshold operator) t =
        pure-Returns _
    evaluate_condition-Returns cache h (arg_path_matches_regex arg_path pattern) t =
        arg_path-Returns arg_path pattern
    evaluate_condition-Returns cache h (sts_chain_depth_greater_than threshold) t = pure-Returns _
    evaluate_condition-Returns cache h (combination_aggregate_cost_usd_gt threshold (some id)) t =
        λ w. asks-Returns 1 _ w
    evaluate_condition-Returns cache h (combination_aggregate_cost_usd_gt threshold none) t =
        λ w. asks-Returns 1 _ w
    evaluate_condition-Returns cache h (combination_ops_count_gt threshold (some id)) t =
        λ w. asks-Returns 1 _ w
    evaluate_condition-Returns cache h (combination_ops_count_gt threshold none) t =
        λ w. asks-Returns 1 _ w
    evaluate_condition-Returns cache h (combination_window_seconds_lt threshold id) t =
        λ w. asks-Returns 2 _ w
    evaluate_condition-Returns cache h (combination_id_matches id) t = λ w. asks-Returns 1 _ w

    evaluate_any-Returns :
        (cache : Dict String (CostResult F))
        → c.cost_cache ≡ some cache
        → (conds : Conditions F) → are_total conds ≡ true
        → Returns (evaluate_any host c policy_id conds)
    evaluate_any-Returns cache h done t = pure-Returns false
    evaluate_any-Returns cache h (also cond conds) t =
        >>=-Returns (evaluate_condition host c policy_id cond) _
          (evaluate_condition-Returns cache h cond (and_split (is_total cond) _ t).0)
          (λ hit.
            if-Returns hit _ _ (pure-Returns true)
              (evaluate_any-Returns cache h conds (and_split (is_total cond) _ t).1))

  pub evaluate_conditions-Returns :
      (cache : Dict String (CostResult F))
      → c.cost_cache ≡ some cache
      → (conds : Conditions F) → are_total conds ≡ true
      → Returns (evaluate_conditions host c policy_id conds)
  unfolding evaluate_conditions is_total
  evaluate_conditions-Returns cache h done t = pure-Returns true
  evaluate_conditions-Returns cache h (also cond conds) t =
      >>=-Returns (evaluate_condition host c policy_id cond) _
        (evaluate_condition-Returns cache h cond (and_split (is_total cond) _ t).0)
        (λ hit.
          if-Returns hit _ _
            (evaluate_conditions-Returns cache h conds (and_split (is_total cond) _ t).1)
            (pure-Returns false))
