-- ===== src/Cost/Combinations/Queries.antt =====
-- tessera/cost/combinations.py: the queries of `CombinationTracker`, and the sweep over stale chains.
use cloudmorph_tessera.Prelude.{
  ℕ, String, Bool, true, false, not, ◌&&◌, Option, none, some, List, map, keep, length, ◌==◌,
  string_eq, if◌then◌else◌,
}
use cloudmorph_tessera.Dict
use cloudmorph_tessera.Dict.{Dict, keys}
use cloudmorph_tessera.Python.Float.{Float}
use cloudmorph_tessera.Cost.Combinations.{
  CombinationDef, ActiveChain, ChainKey, key_eq, Tracker, chain_ops, window_seconds, is_expired,
}

-- `tenant_id is not None and tid != tenant_id`
abbrev pub differs : Option String → String → Bool
differs none s = false
differs (some t) s = not (s == t)

module _ {F : Type 0} ⦃fl : Float F⦄ where
  -- An expired chain is dropped by the lookup that finds it.
  unfoldable pub get_active_chain : ChainKey → F → Tracker F → Option (ActiveChain F) × Tracker F
  get_active_chain key now t = elim (Dict.get key t.active) [
    | none ↦ (none, t)
    | some chain ↦ elim (Dict.get key.combination_id t.defs_by_id) [
      | none ↦ (none, t)
      | some defn ↦
          if is_expired chain defn now
          then (none, record t { active = Dict.pop key t.active })
          else (some chain, t)
    ]
  ]

  unfoldable pub aggregate_cost_usd : ChainKey → F → Tracker F → F × Tracker F
  aggregate_cost_usd key now t =
      let (c, t') = get_active_chain key now t in
      (elim c [ none ↦ fl.nought | some chain ↦ chain.aggregate_cost_usd ], t')

  unfoldable pub ops_count : ChainKey → F → Tracker F → ℕ × Tracker F
  ops_count key now t =
      let (c, t') = get_active_chain key now t in
      (elim c [ none ↦ 0 | some chain ↦ chain_ops chain ], t')

  -- the clock is read once for the lookup and, if there is a chain, once for the window
  unfoldable pub window_seconds_elapsed : ChainKey → F → F → Tracker F → Option F × Tracker F
  window_seconds_elapsed key now later t =
      let (c, t') = get_active_chain key now t in
      (elim c [ none ↦ none | some chain ↦ some (window_seconds chain later) ], t')

  unfoldable pub matches_combination_id : ChainKey → F → Tracker F → Bool × Tracker F
  matches_combination_id key now t =
      let (c, t') = get_active_chain key now t in (elim c [ none ↦ false | some _ ↦ true ], t')

  -- no definition, or past its window
  abbrev pub is_stale : Option CombinationDef → ActiveChain F → F → Bool
  is_stale none chain now = true
  is_stale (some defn) chain now = is_expired chain defn now

  unfoldable pub is_listed :
      Tracker F → Option String → Option String → F → ChainKey × ActiveChain F → Bool
  is_listed t tenant_id scope_id now (key, chain) =
      not (differs tenant_id key.tenant_id)
      && not (differs scope_id key.scope_id)
      && not (is_stale (Dict.get key.combination_id t.defs_by_id) chain now)

  unfoldable pub all_active_chains :
      Option String → Option String → F → Tracker F → List (ActiveChain F)
  all_active_chains tenant_id scope_id now t =
      map (λ (entry : ChainKey × ActiveChain F). entry.1)
        (keep (is_listed t tenant_id scope_id now) t.active)

  unfoldable pub stale_keys : Tracker F → F → Dict ChainKey (ActiveChain F) → List ChainKey
  stale_keys t now active = keys (
      keep
        (λ (entry : ChainKey × ActiveChain F).
          is_stale (Dict.get (entry.1).combination_id t.defs_by_id) entry.1 now)
        active)

  unfoldable pub cleanup_expired : F → Tracker F → ℕ × Tracker F
  cleanup_expired now t =
      let stale = stale_keys t now t.active in
      (length stale, record t { active = Dict.pop_all stale t.active })
