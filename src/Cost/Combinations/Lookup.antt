-- ===== src/Cost/Combinations/Lookup.antt =====
-- What the queries of the tracker return, and what they leave behind.
use cloudmorph_tessera.Prelude.{
  ℕ, ◌+◌, ◌≡◌, refl, ap, ◌∙◌, String, true, false, Option, none, some, [], ◌∷◌, length, arith, ◌==◌,
  string_eq, beq_refl, zero, suc, replicate, length-append,
}
use cloudmorph_tessera.Dict
use cloudmorph_tessera.Dict.{Dict, get-pop, get-put_self, get-append, move_to_end_found}
use cloudmorph_tessera.Python.Float.{Float}
use cloudmorph_tessera.Python.Value.{Fields}
use cloudmorph_tessera.Cost.Combinations.{
  CombinationDef, ActiveChain, ChainKey, key_eq, key_of, Tracker, is_expired, extended,
  current_chain, touch, touch_all,
}
use cloudmorph_tessera.Cost.Combinations.Queries.{get_active_chain}

module _ {F : Type 0} ⦃fl : Float F⦄ where
  -- A query leaves the chain of every other key as it was.
  pub get_active_chain_others :
      (key other : ChainKey) (now : F) (t : Tracker F)
      → (key == other) ≡ false
      → Dict.get other (get_active_chain key now t).1.active ≡ Dict.get other t.active
  unfolding get_active_chain
  get_active_chain_others key other now t ne = ground (arith, get-pop key other t.active)

  -- A chain of a defined combination that a query finds past its window is not returned, and its
  -- key is gone.
  pub get_active_chain_expired :
      (key : ChainKey) (now : F) (t : Tracker F) (chain : ActiveChain F) (defn : CombinationDef)
      → Dict.get key t.active ≡ some chain
      → Dict.get key.combination_id t.defs_by_id ≡ some defn
      → is_expired chain defn now ≡ true
      → ((get_active_chain key now t).0 ≡ none)
        × (Dict.get key (get_active_chain key now t).1.active ≡ none)
  unfolding get_active_chain
  get_active_chain_expired key now t chain defn found known late =
      ground (arith, get-pop key key t.active, beq_refl key)

  get_own : (key : ChainKey) (chain : ActiveChain F) → Dict.get key ((key, chain) ∷ []) ≡ some chain
  unfolding Dict.get
  get_own key chain = rw (beq_refl key)

  get-move_to_end_self :
      (key : ChainKey) (chain : ActiveChain F) (d : Dict ChainKey (ActiveChain F))
      → Dict.get key (Dict.move_to_end key (Dict.put key chain d)) ≡ some chain
  get-move_to_end_self key chain d =
      rw (move_to_end_found key chain (Dict.put key chain d) (get-put_self key chain d)) (
        rw (get-append key (Dict.pop key (Dict.put key chain d)) ((key, chain) ∷ []))
          (rw (get-pop key key (Dict.put key chain d)) (rw (beq_refl key) (get_own key chain))))

module _ {F : Type 0} ⦃fl : Float F⦄ (tenant_id scope_id tool_name : String) (now : F)
    (args : Fields F) (cost : F) (principal : Option String) where
  -- the chain of the definition after one round
  get-touch :
      (defn : CombinationDef) (active : Dict ChainKey (ActiveChain F))
      → Dict.get
          (key_of tenant_id scope_id defn)
          (touch tenant_id scope_id tool_name now args cost principal defn active)
        ≡ some (
            extended tool_name now args cost principal
              (current_chain now defn (Dict.get (key_of tenant_id scope_id defn) active)))
  unfolding touch
  get-touch defn active = get-move_to_end_self (key_of tenant_id scope_id defn) _ active

  started-extended :
      (c : ActiveChain F) → (extended tool_name now args cost principal c).started_at ≡ c.started_at
  unfolding extended
  started-extended c = refl

  length-extended :
      (c : ActiveChain F)
      → length (extended tool_name now args cost principal c).observed_ops
        ≡ length c.observed_ops + 1
  unfolding extended
  length-extended c = length-append c.observed_ops ((tool_name, now, args) ∷ [])

  current-live :
      (defn : CombinationDef) (chain : ActiveChain F)
      → is_expired chain defn now ≡ false
      → current_chain now defn (some chain) ≡ chain
  unfolding current_chain
  current-live defn chain h = rw h

  -- Where the tool matches one definition `n` times (a combination that lists the tool `n` times,
  -- or is loaded `n` times), and the chain of its key is within its window, a single call is
  -- counted `n` times.
  pub touch_all_repeats :
      (n : ℕ) (defn : CombinationDef) (active : Dict ChainKey (ActiveChain F))
      (chain : ActiveChain F)
      → ((c : ActiveChain F) → c.started_at ≡ chain.started_at → is_expired c defn now ≡ false)
      → Dict.get (key_of tenant_id scope_id defn) active ≡ some chain
      → (after : ActiveChain F) × (Dict.get (key_of tenant_id scope_id defn) (
            touch_all tenant_id scope_id tool_name now args cost principal
              (replicate n defn)
              active)
          ≡ some after)
        × (length after.observed_ops ≡ length chain.observed_ops + n)
        × (after.started_at ≡ chain.started_at)
  unfolding touch_all
  touch_all_repeats zero defn active chain fresh found = (chain, found, omega arith, refl)
  touch_all_repeats (suc n) defn active chain fresh found =
      let next : ActiveChain F = extended tool_name now args cost principal chain in
      let (after, p, counted, started) =
        touch_all_repeats n defn
          (touch tenant_id scope_id tool_name now args cost principal defn active) next
          (λ c h. fresh c (h ∙ started-extended chain))
          (get-touch defn active
            ∙ rw found (
                ap (λ c. some (extended tool_name now args cost principal c))
                  (current-live defn chain (fresh chain refl)))) in
      (after, p, omega (arith, length-extended chain), started ∙ started-extended chain)
