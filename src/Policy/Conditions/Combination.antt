-- ===== src/Policy/Conditions/Combination.antt =====
-- tessera/policy/conditions.py: the conditions on active chains of operations.
use cloudmorph_tessera.Prelude.{
  ℕ, suc, ◌+◌, String, Bool, false, Option, none, some, any, ◌==◌, string_eq, if◌then◌else◌, ℤ, pos,
  ltb_ℤ,
}
use cloudmorph_tessera.Python.Float.{Float}
use cloudmorph_tessera.Cost.Combinations.{ActiveChain, ChainKey, Tracker, chain_ops}
use cloudmorph_tessera.Cost.Combinations.Queries.{
  aggregate_cost_usd, ops_count, window_seconds_elapsed, matches_combination_id, all_active_chains,
}
use cloudmorph_tessera.Policy.Eval.{Host, Context, World, Eval}
use cloudmorph_tessera.Python.Result.{ok}

-- `b or "default"` of a text that may be missing or empty
unfoldable pub or_default : Option String → String
or_default none = "default"
or_default (some b) = if b == "" then "default" else b

-- `a or b or "default"`
unfoldable pub first_text : Option String → Option String → String
first_text none b = or_default b
first_text (some a) b = if a == "" then or_default b else a

module _ {F : Type 0} where
  -- `_scope_keys`
  unfoldable pub scope_keys : Context F → String × String
  scope_keys c = (first_text c.tenant_id c.scope, first_text c.scope_id c.scope)

  abbrev pub chain_key : Context F → String → ChainKey
  chain_key c combination_id = record {
    tenant_id = (scope_keys c).0;
    scope_id = (scope_keys c).1;
    combination_id = combination_id;
  }

  -- A query of the tracker, `default` if there is none. It reads the clock at most `n` times: a
  -- reading that is not made is one that nothing sees.
  unfoldable pub query : {A : Type 0} → ℕ → A → (Tracker F → A × Tracker F) → World F → A × World F
  query n default ask w = elim w.tracker [
    | none ↦ (default, w)
    | some t ↦ let (a, t') = ask t in (a, record w { tracker = some t'; readings = w.readings + n })
  ]

  unfoldable pub asks : ℕ → (Tracker F → Bool × Tracker F) → Eval F Bool
  asks n ask w = let (b, w') = query n false ask w in (ok b, w')

module _ {F : Type 0} ⦃fl : Float F⦄ (host : Host F) where
  -- one chain, or any active chain of the tenant and the scope
  unfoldable pub eval_combination_aggregate_cost_usd_gt :
      F → Option String → Context F → Eval F Bool
  eval_combination_aggregate_cost_usd_gt threshold (some combination_id) c w =
      asks 1
        (λ t.
          let (cost, t') =
            aggregate_cost_usd (chain_key c combination_id) (host.time_fn w.readings) t in
          (fl.lt threshold cost, t'))
        w
  eval_combination_aggregate_cost_usd_gt threshold none c w =
      asks 1
        (λ t. (
          any (λ (chain : ActiveChain F). fl.lt threshold chain.aggregate_cost_usd)
              (all_active_chains (some (scope_keys c).0) (some (scope_keys c).1)
                (host.time_fn w.readings) t),
          t,
        ))
        w

  unfoldable pub eval_combination_ops_count_gt : ℤ → Option String → Context F → Eval F Bool
  eval_combination_ops_count_gt threshold (some combination_id) c w =
      asks 1
        (λ t.
          let (count, t') = ops_count (chain_key c combination_id) (host.time_fn w.readings) t in
          (ltb_ℤ threshold (pos count), t'))
        w
  eval_combination_ops_count_gt threshold none c w =
      asks 1
        (λ t. (
          any (λ (chain : ActiveChain F). ltb_ℤ threshold (pos (chain_ops chain)))
              (all_active_chains (some (scope_keys c).0) (some (scope_keys c).1)
                (host.time_fn w.readings) t),
          t,
        ))
        w

  -- the second reading is made where a chain was found
  unfoldable pub eval_combination_window_seconds_lt : F → String → Context F → Eval F Bool
  eval_combination_window_seconds_lt threshold combination_id c w =
      asks 2
        (λ t.
          let (elapsed, t') =
            window_seconds_elapsed (chain_key c combination_id) (host.time_fn w.readings)
              (host.time_fn (suc w.readings)) t in
          (elim elapsed [ none ↦ false | some e ↦ fl.lt e threshold ], t'))
        w

  unfoldable pub eval_combination_id_matches : String → Context F → Eval F Bool
  eval_combination_id_matches combination_id c w =
      asks 1 (matches_combination_id (chain_key c combination_id) (host.time_fn w.readings)) w
