-- ===== src/Tests/Costs.antt =====
-- The tracker at a concrete combination.
use cloudmorph_tessera.Prelude.{
  if◌then◌else◌, ℕ, ◌+◌, ◌-◌, ◌≡◌, refl, none, some, [], ◌∷◌, length, drop, arith, pos,
}
use cloudmorph_tessera.Dict
use cloudmorph_tessera.Dict.{Dict}
use cloudmorph_tessera.Python.Value.{end}
use cloudmorph_tessera.Cost.Combinations.{
  CombinationDef, ActiveChain, ChainKey, key_eq, key_of, Tracker, new_tracker, register,
  register_all, record_op, evict_if_needed, chains_of, touch_all, is_expired, matching_defs, touch,
}
use cloudmorph_tessera.Cost.Combinations.Queries.{get_active_chain}
use cloudmorph_tessera.Cost.Combinations.Eviction.{
  IsValid, record_op-IsValid, record_op_isolated, chains_of-evict_self,
}
use cloudmorph_tessera.Cost.Combinations.Lookup.{get_active_chain_others, get_active_chain_expired}
use cloudmorph_tessera.Cost.Combinations.Recorded.{
  Recorded, live, record_op-Recorded, get_active_chain-record_op,
}
use cloudmorph_tessera.Cost.Combinations.Repeats.{times_named, record_op_repeats}
use cloudmorph_tessera.Tests.Fixtures.{fl}

abbrev defn : CombinationDef
defn = record {
  combination_id = "exfiltration";
  name = "exfiltration";
  description = "";
  cloud = "aws";
  trigger_ops = record { tool_name = "s3_get"; role = "read"; must_follow = [] } ∷ [];
  window_seconds = pos 60;
  cost_runaway_severity = "high";
  blast_radius_severity = "high";
  ops_count = pos 1;
}

abbrev empty_tracker : Tracker ℕ
empty_tracker = new_tracker (defn ∷ []) 2

abbrev key : ChainKey
key = key_of "a" "agent" defn

abbrev chain : ActiveChain ℕ
chain = record {
  combination_id = "exfiltration";
  started_at = 10;
  last_updated = 10;
  observed_ops = ("s3_get", 10, end) ∷ [];
  aggregate_cost_usd = 5;
  principals = [];
}

-- one chain of the tenant "a"
abbrev tracker : Tracker ℕ
tracker = record {
  defs_by_id = ("exfiltration", defn) ∷ [];
  defs_by_op = ("s3_get", defn ∷ []) ∷ [];
  active = (key, chain) ∷ [];
  max_chains_per_tenant = 0;
}

empty-IsValid : IsValid empty_tracker
unfolding new_tracker register_all register chains_of
empty-IsValid = record { distinct = tt; capped = λ tenant_id. omega arith }

record_op-IsValid_example : IsValid (record_op "a" "agent" "s3_get" 10 end 5 none empty_tracker).1
record_op-IsValid_example =
    record_op-IsValid "a" "agent" "s3_get" 10 end 5 none empty_tracker empty-IsValid

record_op_isolated_example :
    chains_of "a" (record_op "b" "agent" "s3_get" 20 end 5 none tracker).1.active
    ≡ chains_of "a" tracker.active
record_op_isolated_example = record_op_isolated "b" "agent" "s3_get" 20 end 5 none "a" tracker refl

chains_of-evict_self_example :
    chains_of "a" (evict_if_needed "a" tracker).active
    ≡ drop
        (length (chains_of "a" tracker.active) - tracker.max_chains_per_tenant)
        (chains_of "a" tracker.active)
chains_of-evict_self_example = chains_of-evict_self "a" tracker (unfold Dict.get in (refl, tt))

other_chains_kept :
    Dict.get key (get_active_chain (key_of "b" "agent" defn) 30 tracker).1.active
    ≡ Dict.get key tracker.active
other_chains_kept = get_active_chain_others (key_of "b" "agent" defn) key 30 tracker refl

expired_chain_missed :
    ((get_active_chain key 90 tracker).0 ≡ none)
    × (Dict.get key (get_active_chain key 90 tracker).1.active ≡ none)
expired_chain_missed =
    get_active_chain_expired key 90 tracker chain defn (unfold Dict.get in refl)
      (unfold Dict.get in refl) (unfold is_expired in refl)

-- room for one chain
abbrev roomy : Tracker ℕ
roomy = record tracker { max_chains_per_tenant = 1 }

record_op-Recorded_example :
    (after : ActiveChain ℕ) × (Dict.get key
        (record_op "a" "agent" "s3_get" 90 end 5 none roomy).1.active
      ≡ some after)
    × Recorded "a" "agent" "s3_get" 90 end 5 none (live 90 defn (Dict.get key roomy.active)) after
record_op-Recorded_example =
    record_op-Recorded "a" "agent" "s3_get" 90 end 5 none defn roomy
      (unfold matching_defs Dict.get in refl) (unfold Dict.get in (refl, tt)) (omega arith)

-- a combination that names one tool in two of its operations
abbrev doubled : CombinationDef
doubled = record defn {
  trigger_ops =
      record { tool_name = "s3_get"; role = "read"; must_follow = [] }
      ∷ record { tool_name = "s3_get"; role = "leak"; must_follow = [] }
      ∷ [];
}

abbrev unregistered : Tracker ℕ
unregistered = record roomy { defs_by_op = []; defs_by_id = [] }

record_op_repeats_example :
    (after : ActiveChain ℕ) × (Dict.get key
        (record_op "a" "agent" "s3_get" 30 end 5 none (register doubled unregistered)).1.active
      ≡ some after)
    × (length after.observed_ops
        ≡ length chain.observed_ops + times_named "s3_get" doubled.trigger_ops)
unfolding Dict.pop
record_op_repeats_example =
    record_op_repeats "a" "agent" "s3_get" 30 end 5 none doubled unregistered chain
      (unfold matching_defs Dict.get in refl) (unfold Dict.get in refl) refl
      (unfold touch_all touch Dict.move_to_end Dict.put Dict.get chains_of in refl)

get_active_chain-record_op_example :
    (after : ActiveChain ℕ) × Recorded "a" "agent" "s3_get" 30 end 5 none
      (live 30 defn (Dict.get key roomy.active))
      after
    × ((get_active_chain key 50 (record_op "a" "agent" "s3_get" 30 end 5 none roomy).1).0
        ≡ (if fl.gt_int (fl.sub 50 after.started_at) defn.window_seconds then none else some after))
get_active_chain-record_op_example =
    get_active_chain-record_op "a" "agent" "s3_get" 30 end 5 none defn 50 roomy
      (unfold matching_defs Dict.get in refl) (unfold Dict.get in refl)
      (unfold Dict.get in (refl, tt)) (omega arith)
