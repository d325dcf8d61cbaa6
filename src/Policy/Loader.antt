-- ===== src/Policy/Loader.antt =====
-- tessera/policy/loader.py: the two orders that the loader establishes.
pub mod Sorted
pub mod Compile
pub mod Files
pub mod Rounds
pub mod Reload
use cloudmorph_tessera.Prelude.{ℕ, Bool, true, false, not, List, [], ◌∷◌, leb, ltb_ℤ, if◌then◌else◌}
use cloudmorph_tessera.Python.Json.Order.{str_lt}
use cloudmorph_tessera.Policy.Schema.{
  Policy, Condition, Conditions, done, also, arg_equals, arg_greater_than, arg_less_than,
  arg_matches_regex, arg_in_set, arg_contains_pattern, arg_size_greater_than, tool_name_in,
  action_class_in, intent_class_in, intent_purpose_matches, region_in, time_of_day_outside,
  meta_field_equals, any_of, none_of,
}

module _ {F : Type 0} where
  -- `_condition_tier`; a type that the table does not name is of tier 3
  unfoldable pub condition_tier : Condition F → ℕ
  condition_tier (arg_equals arg value) = 0
  condition_tier (arg_in_set arg allowed) = 0
  condition_tier (arg_size_greater_than arg bytes) = 0
  condition_tier (tool_name_in names) = 0
  condition_tier (arg_greater_than arg value) = 1
  condition_tier (arg_less_than arg value) = 1
  condition_tier (intent_class_in classes) = 1
  condition_tier (action_class_in classes) = 1
  condition_tier (intent_purpose_matches pattern) = 1
  condition_tier (region_in arg regions) = 1
  condition_tier (time_of_day_outside opens closes tz) = 1
  condition_tier (meta_field_equals key value) = 1
  condition_tier (arg_matches_regex arg pattern) = 2
  condition_tier (arg_contains_pattern arg pattern) = 2
  condition_tier (any_of conditions) = 4
  condition_tier (none_of conditions) = 4
  condition_tier _ = 3

  unfoldable pub insert_condition : Condition F → Conditions F → Conditions F
  insert_condition c done = also c done
  insert_condition c (also d conds) =
      let rest = insert_condition c conds in
      if leb (condition_tier c) (condition_tier d) then also c (also d conds) else also d rest

  -- `_sort_conditions`: `sorted` is stable, so an earlier condition goes in front of its equals
  unfoldable mutual
    unfolding insert_condition

    pub sort_conditions : Conditions F → Conditions F
    sort_conditions done = done
    sort_conditions (also c conds) = insert_condition (sort_nested c) (sort_conditions conds)

    pub sort_nested : Condition F → Condition F
    sort_nested (any_of conditions) = any_of (sort_conditions conditions)
    sort_nested (none_of conditions) = none_of (sort_conditions conditions)
    sort_nested c = c

  -- the key `(-p.priority, p.id)`: that of `p` is at most that of `q`
  unfoldable pub precedes : Policy F → Policy F → Bool
  precedes p q =
      if ltb_ℤ q.priority p.priority
      then true
      else if ltb_ℤ p.priority q.priority
      then false
      else not (str_lt q.id p.id)

  unfoldable pub insert_policy : Policy F → List (Policy F) → List (Policy F)
  insert_policy p [] = p ∷ []
  insert_policy p (q ∷ policies) =
      let rest = insert_policy p policies in if precedes p q then p ∷ q ∷ policies else q ∷ rest

  -- `_sorted_policies`
  unfoldable pub sorted_policies : List (Policy F) → List (Policy F)
  sorted_policies [] = []
  sorted_policies (p ∷ policies) = insert_policy p (sorted_policies policies)
