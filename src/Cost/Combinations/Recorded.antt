-- ===== src/Cost/Combinations/Recorded.antt =====
-- tessera/cost/combinations.py: what `record_op` makes of a chain, and what a later query returns of it.
use cloudmorph_tessera.Prelude.{
  ◌≤◌, ◌≡◌, refl, ap, ◌∙◌, String, Option, none, some, List, [], ◌∷◌, ◌++◌, Bool-cases, string_eq,
  inl, inr, if◌then◌else◌,
}
use cloudmorph_tessera.Dict
use cloudmorph_tessera.Dict.{Dict}
use cloudmorph_tessera.Dict.Entries.{IsUnique}
use cloudmorph_tessera.Python.Float.{Float}
use cloudmorph_tessera.Python.Value.{Fields}
use cloudmorph_tessera.Cost.Combinations.{
  CombinationDef, ActiveChain, ChainKey, key_eq, key_of, Tracker, evict_if_needed, extended,
  current_chain, is_expired, new_chain, matching_defs, record_on, record_op, arith,
}
use cloudmorph_tessera.Cost.Combinations.Queries.{get_active_chain}
use cloudmorph_tessera.Cost.Combinations.Records.{get-record_op}

module _ {F : Type 0} where
  defs_by_id-evict :
      (tenant_id : String) (t : Tracker F) → (evict_if_needed tenant_id t).defs_by_id ≡ t.defs_by_id
  unfolding evict_if_needed
  defs_by_id-evict tenant_id t = ground arith

module _ {F : Type 0} ⦃fl : Float F⦄ where
  -- the chain, unless more seconds than those of the window have passed since its start
  abbrev pub live : F → CombinationDef → Option (ActiveChain F) → Option (ActiveChain F)
  live now defn none = none
  live now defn (some c) =
      if fl.gt_int (fl.sub now c.started_at) defn.window_seconds then none else some c

  -- a query for a chain of a known definition
  get_active_chain-live :
      (key : ChainKey) (now : F) (t : Tracker F) (chain : ActiveChain F) (defn : CombinationDef)
      → Dict.get key t.active ≡ some chain
      → Dict.get key.combination_id t.defs_by_id ≡ some defn
      → (get_active_chain key now t).0 ≡ live now defn (some chain)
  unfolding get_active_chain is_expired
  get_active_chain-live key now t chain defn found known = ground arith

module _ {F : Type 0} ⦃fl : Float F⦄ (tenant_id scope_id tool_name : String) (now : F)
    (args : Fields F) (cost : F) (principal : Option String) where
  -- the chain after a call, from a chain that is within its window or from none
  abbrev pub Recorded : Option (ActiveChain F) → ActiveChain F → Type 0
  Recorded none after =
      (after.observed_ops ≡ (tool_name, now, args) ∷ [])
      × (after.aggregate_cost_usd ≡ fl.add fl.nought cost)
      × (after.started_at ≡ now)
      × (after.last_updated ≡ now)
  Recorded (some before) after =
      (after.observed_ops ≡ before.observed_ops ++ ((tool_name, now, args) ∷ []))
      × (after.aggregate_cost_usd ≡ fl.add before.aggregate_cost_usd cost)
      × (after.started_at ≡ before.started_at)
      × (after.last_updated ≡ now)

  extended-Recorded :
      (defn : CombinationDef) (before : Option (ActiveChain F))
      → Recorded
          (live now defn before)
          (extended tool_name now args cost principal (current_chain now defn before))
  unfolding extended current_chain new_chain is_expired
  extended-Recorded defn none = (refl, refl, refl, refl)
  extended-Recorded defn (some c) =
      elim (Bool-cases (fl.gt_int (fl.sub now c.started_at) defn.window_seconds)) [
        | inl late ↦ rw late (refl, refl, refl, refl)
        | inr fresh ↦ rw fresh (refl, refl, refl, refl)
      ]

  -- Where the tool triggers one combination, once, the keys are distinct and the cap is one or
  -- more, there is a chain under the key of the call afterwards. If there was one before, and no more
  -- seconds than those of the window have passed since its start, then that chain is extended by the
  -- call and its cost and keeps its start; else the call starts a new chain, which holds the call alone.
  pub record_op-Recorded :
      (defn : CombinationDef) (t : Tracker F)
      → matching_defs tool_name t ≡ defn ∷ []
      → IsUnique t.active
      → 1 ≤ t.max_chains_per_tenant
      → (after : ActiveChain F) × (Dict.get
            (key_of tenant_id scope_id defn)
            (record_op tenant_id scope_id tool_name now args cost principal t).1.active
          ≡ some after)
        × Recorded (live now defn (Dict.get (key_of tenant_id scope_id defn) t.active)) after
  record_op-Recorded defn t one u room = (
    extended tool_name now args cost principal
        (current_chain now defn (Dict.get (key_of tenant_id scope_id defn) t.active)),
    get-record_op tenant_id scope_id tool_name now args cost principal defn t one u room,
    extended-Recorded defn (Dict.get (key_of tenant_id scope_id defn) t.active),
  )

  defs_by_id-record_op :
      (t : Tracker F)
      → (record_op tenant_id scope_id tool_name now args cost principal t).1.defs_by_id
        ≡ t.defs_by_id
  unfolding record_op record_on
  defs_by_id-record_op t = unchanged (matching_defs tool_name t)
    where
      unchanged :
          (defs : List CombinationDef)
          → (record_on tenant_id scope_id tool_name now args cost principal defs t).1.defs_by_id
            ≡ t.defs_by_id
      unchanged [] = refl
      unchanged (defn ∷ defs) = defs_by_id-evict tenant_id _

  -- Where the tool triggers one combination, once, which is known by its id, the keys are distinct and
  -- the cap is one or more: after a recorded call a query for its key returns the chain that the call has
  -- extended or started, as long as no more seconds than those of the window have passed since the start of
  -- that chain; after that it returns no chain.
  pub get_active_chain-record_op :
      (defn : CombinationDef) (later : F) (t : Tracker F)
      → matching_defs tool_name t ≡ defn ∷ []
      → Dict.get defn.combination_id t.defs_by_id ≡ some defn
      → IsUnique t.active
      → 1 ≤ t.max_chains_per_tenant
      → (after : ActiveChain F) × Recorded
          (live now defn (Dict.get (key_of tenant_id scope_id defn) t.active))
          after
        × ((get_active_chain
              (key_of tenant_id scope_id defn)
              later
              (record_op tenant_id scope_id tool_name now args cost principal t).1).0
            ≡ (if fl.gt_int (fl.sub later after.started_at) defn.window_seconds
                then none
                else some after))
  get_active_chain-record_op defn later t one known u room =
      let (after, found, recorded) = record_op-Recorded defn t one u room in
      (
        after,
        recorded,
        get_active_chain-live (key_of tenant_id scope_id defn) later
            (record_op tenant_id scope_id tool_name now args cost principal t).1 after defn found
            (ap (Dict.get defn.combination_id) (defs_by_id-record_op t) ∙ known),
      )
