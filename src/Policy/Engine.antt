-- ===== src/Policy/Engine.antt =====
-- tessera/policy/engine.py: `PolicyEngine`.
pub mod Decides
pub mod Walk
pub mod Gate
pub mod Counts
pub mod Prefetch
pub mod Evaluates
use cloudmorph_tessera.Prelude.{
  String, Bool, true, false, not, ◌&&◌, ◌||◌, Option, none, some, List, [], ◌∷◌, ◌++◌, contains,
  string_eq, if◌then◌else◌,
}
use cloudmorph_tessera.Python.Float.{Float}
use cloudmorph_tessera.Python.Result.{ok}
use cloudmorph_tessera.Policy.Schema.{
  Action, block, Policy, Decision, Condition, Conditions, done, also, any_of, none_of, blast_radius,
  data_volume, Estimator,
}
use cloudmorph_tessera.Policy.Eval.{Host, Context, World, Eval, pure, gets, ◌>>=◌}
use cloudmorph_tessera.Policy.Matchers.{
  resolve_effective_tool_name, match_upstream, match_tool, match_tool_dual,
}
use cloudmorph_tessera.Policy.Conditions.{evaluate_conditions}

pub record Engine (F : Type 0) : Type 0 where
  pub policies : List (Policy F)
  pub default_action : Action

abbrev pub lockdown_decision : Decision
lockdown_decision = record {
  action = block;
  reason = "lockdown_active";
  policy_id = none;
  decision_error = none;
}

abbrev pub default_decision : Action → Decision
default_decision action = record {
  action = action;
  reason = "default";
  policy_id = none;
  decision_error = none;
}

abbrev pub first_error : List String → Option String
first_error [] = none
first_error (e ∷ es) = some e

unfoldable pub decision_of : {F : Type 0} → Policy F → List String → Decision
decision_of p errors = record {
  action = p.action;
  reason = p.reason;
  policy_id = some p.id;
  decision_error = first_error errors;
}

-- `policy.match.require_intent and intent is None`
abbrev pub lacks_intent : {A : Type 0} → Bool → Option A → Bool
lacks_intent required none = required
lacks_intent required (some _) = false

-- `clear_decision_errors()`, in the copy of the context that one policy sees
abbrev pub enter : {F : Type 0} → World F → World F
enter w = record w { errors = [] }

-- A cache of sizes that the copy has made for itself is lost with it.
abbrev pub leave : {F : Type 0} → World F → World F → World F
leave before w = record w {
  size_cache = elim before.size_cache [ none ↦ none | some _ ↦ w.size_cache ];
}

-- the decision of a policy that has matched, with the first error that it tagged
unfoldable pub conclude : {F : Type 0} → Policy F → Eval F Decision → Bool → Eval F Decision
conclude p rest true = do errors ← gets (λ w. w.errors); pure (decision_of p errors)
conclude p rest false = rest

module _ {F : Type 0} ⦃fl : Float F⦄ (host : Host F) where
  -- the upstream, the tool and the intent, in the order of the loop
  unfoldable pub applies : Context F → String → Policy F → Bool
  applies c effective p =
      match_upstream p.match.upstream c.upstream
      && match_tool_dual host p.match.tool p.match.tool_pattern c.tool_name effective
      && not (lacks_intent p.match.require_intent c.intent)

  -- the conditions of one policy, with the errors cleared before
  unfoldable pub matches : Context F → Policy F → Eval F Bool
  matches c p w = let (r, w') = evaluate_conditions host c p.id p.when (enter w) in (r, leave w w')

  -- the loop: the first policy that matches decides
  unfoldable pub decide : Context F → String → Action → List (Policy F) → Eval F Decision
  decide c effective default_action [] = pure (default_decision default_action)
  decide c effective default_action (p ∷ policies) =
      let rest = decide c effective default_action policies in
      if applies c effective p then (do matched ← matches c p; conclude p rest matched) else rest

  unfoldable pub evaluate : Engine F → Context F → Eval F Decision
  evaluate e c w =
      if c.lockdown
      then (ok lockdown_decision, w)
      else (let (effective, w') = resolve_effective_tool_name c w in
          decide c effective e.default_action e.policies w')

  -- the gate of the prefetches: the upstream and the literal tool name
  unfoldable pub gated : String → String → Policy F → Bool
  gated tool_name upstream p =
      match_upstream p.match.upstream upstream
      && match_tool host p.match.tool p.match.tool_pattern tool_name

-- `not resource_types or tool_name in resource_types`
unfoldable pub targets : List String → String → Bool
targets [] tool_name = true
targets (t ∷ ts) tool_name = contains tool_name (t ∷ ts)

module _ {F : Type 0} where
  unfoldable mutual
    pub has_blast_radius_for : String → Condition F → Bool
    has_blast_radius_for tool_name (blast_radius threshold types operator) = targets types tool_name
    has_blast_radius_for tool_name (any_of conditions) = any_blast_radius_for tool_name conditions
    has_blast_radius_for tool_name (none_of conditions) = any_blast_radius_for tool_name conditions
    has_blast_radius_for tool_name _ = false

    pub any_blast_radius_for : String → Conditions F → Bool
    any_blast_radius_for tool_name done = false
    any_blast_radius_for tool_name (also cond conds) =
        has_blast_radius_for tool_name cond || any_blast_radius_for tool_name conds

  -- the estimators in the order of the walk; the source's set forgets order and repetition
  unfoldable mutual
    pub collect_data_volume_estimators : Condition F → List Estimator
    collect_data_volume_estimators (data_volume threshold operator estimator) = estimator ∷ []
    collect_data_volume_estimators (any_of conditions) = collect_all_estimators conditions
    collect_data_volume_estimators (none_of conditions) = collect_all_estimators conditions
    collect_data_volume_estimators _ = []

    pub collect_all_estimators : Conditions F → List Estimator
    collect_all_estimators done = []
    collect_all_estimators (also cond conds) =
        collect_data_volume_estimators cond ++ collect_all_estimators conds

module _ {F : Type 0} ⦃fl : Float F⦄ (host : Host F) where
  unfoldable pub policies_need_blast_radius : List (Policy F) → String → String → Bool
  policies_need_blast_radius [] tool_name upstream = false
  policies_need_blast_radius (p ∷ policies) tool_name upstream =
      (gated host tool_name upstream p && any_blast_radius_for tool_name p.when)
      || policies_need_blast_radius policies tool_name upstream

  unfoldable pub policies_need_data_volume : List (Policy F) → String → String → List Estimator
  policies_need_data_volume [] tool_name upstream = []
  policies_need_data_volume (p ∷ policies) tool_name upstream =
      (if gated host tool_name upstream p then collect_all_estimators p.when else [])
      ++ policies_need_data_volume policies tool_name upstream
