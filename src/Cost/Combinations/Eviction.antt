-- ===== src/Cost/Combinations/Eviction.antt =====
-- The cap on a tenant's chains, and that tenants do not disturb one another.
use cloudmorph_tessera.Prelude.{
  ℕ, ◌-◌, ◌≤◌, ◌≡◌, refl, sym, ◌∙◌, String, true, false, Option, List, [], ◌∷◌, length, take, drop,
  keep, leb, length-drop, arith, ◌==◌, string_eq, eq_iff, Bool-cases, inl, inr, drop_none, leb→le,
  zero, suc,
}
use cloudmorph_tessera.Dict
use cloudmorph_tessera.Dict.{Dict, keys, pop_all}
use cloudmorph_tessera.Dict.Entries.{
  IsUnique, keep-IsUnique, pop_all-IsUnique, put-IsUnique, move_to_end-IsUnique, keep-pop_all,
  pop_all-take, keep-put_hidden, keep-pop_hidden, keep-move_to_end_hidden,
}
use cloudmorph_tessera.Python.Float.{Float}
use cloudmorph_tessera.Python.Value.{Fields}
use cloudmorph_tessera.Cost.Combinations.{
  CombinationDef, ActiveChain, ChainKey, key_eq, key_of, Tracker, is_of, chains_of, evict_if_needed,
  touch, touch_all, matching_defs, record_op, record_on,
}

module _ {F : Type 0} where
  -- Where the keys are distinct, eviction drops the tenant's oldest chains, as many as there are
  -- above the cap, and no other of the tenant.
  pub chains_of-evict_self :
      (tenant_id : String) (t : Tracker F)
      → IsUnique t.active
      → chains_of tenant_id (evict_if_needed tenant_id t).active
        ≡ drop
            (length (chains_of tenant_id t.active) - t.max_chains_per_tenant)
            (chains_of tenant_id t.active)
  unfolding evict_if_needed
  chains_of-evict_self tenant_id t u =
      elim (Bool-cases (leb (length (chains_of tenant_id t.active)) t.max_chains_per_tenant)) [
        | inl fits ↦ rw fits (sym (drop_none _ _ _ (leb→le _ _ fits)))
        | inr over ↦ rw over (
            unfold chains_of in
            keep-pop_all (is_of tenant_id) _ t.active
            ∙ pop_all-take _ _ (keep-IsUnique (is_of tenant_id) t.active u))
      ]

  abbrev AllOf : String → Dict ChainKey (ActiveChain F) → Type 0
  AllOf tenant_id [] = Unit
  AllOf tenant_id (entry ∷ d) = (is_of tenant_id entry ≡ true) × AllOf tenant_id d

  keep-AllOf :
      (tenant_id : String) (d : Dict ChainKey (ActiveChain F))
      → AllOf tenant_id (keep (is_of tenant_id) d)
  keep-AllOf tenant_id [] = tt
  keep-AllOf tenant_id (entry ∷ d) = ground (arith, keep-AllOf tenant_id d)

  take-AllOf :
      (tenant_id : String) (n : ℕ) (d : Dict ChainKey (ActiveChain F))
      → AllOf tenant_id d
      → AllOf tenant_id (take n d)
  take-AllOf tenant_id zero d h = tt
  take-AllOf tenant_id (suc n) [] h = tt
  take-AllOf tenant_id (suc n) (entry ∷ d) h = (h.0, take-AllOf tenant_id n d h.1)

  hidden_key :
      (tenant_id other : String) (key : ChainKey) (chain : ActiveChain F)
      → (tenant_id == other) ≡ false
      → (key.tenant_id == tenant_id) ≡ true
      → is_of other (key, chain) ≡ false
  hidden_key tenant_id other key chain ne own =
      ground
        (arith, eq_iff key.tenant_id tenant_id, eq_iff key.tenant_id other, eq_iff tenant_id other)

  -- The keys of a tenant's own chains are hidden from another tenant.
  pop_all_hidden :
      (tenant_id other : String) (own active : Dict ChainKey (ActiveChain F))
      → (tenant_id == other) ≡ false
      → AllOf tenant_id own
      → keep (is_of other) (pop_all (keys own) active) ≡ keep (is_of other) active
  unfolding pop_all
  pop_all_hidden tenant_id other [] active ne h = refl
  pop_all_hidden tenant_id other ((key, chain) ∷ own) active ne (h, hs) =
      pop_all_hidden tenant_id other own (Dict.pop key active) ne hs
      ∙ keep-pop_hidden (is_of other) key active (λ w. hidden_key tenant_id other key w ne h)

  -- Eviction for one tenant leaves the chains of every other tenant as they were.
  pub chains_of-evict_other :
      (tenant_id other : String) (t : Tracker F)
      → (tenant_id == other) ≡ false
      → chains_of other (evict_if_needed tenant_id t).active ≡ chains_of other t.active
  unfolding evict_if_needed
  chains_of-evict_other tenant_id other t ne =
      elim (Bool-cases (leb (length (chains_of tenant_id t.active)) t.max_chains_per_tenant)) [
        | inl fits ↦ rw fits
        | inr over ↦ rw over (
            unfold chains_of in
            pop_all_hidden tenant_id other _ t.active ne
              (take-AllOf tenant_id _ _ (keep-AllOf tenant_id t.active)))
      ]

  evict-IsUnique :
      (tenant_id : String) (t : Tracker F)
      → IsUnique t.active
      → IsUnique (evict_if_needed tenant_id t).active
  unfolding evict_if_needed
  evict-IsUnique tenant_id t u =
      elim (Bool-cases (leb (length (chains_of tenant_id t.active)) t.max_chains_per_tenant)) [
        | inl fits ↦ rw fits u
        | inr over ↦ rw over (pop_all-IsUnique _ t.active u)
      ]

  cap-evict :
      (tenant_id : String) (t : Tracker F)
      → (evict_if_needed tenant_id t).max_chains_per_tenant ≡ t.max_chains_per_tenant
  unfolding evict_if_needed
  cap-evict tenant_id t = ground arith

  -- The keys are distinct, and no tenant has more chains than the cap.
  pub record IsValid (t : Tracker F) : Type 0 where
    pub distinct : IsUnique t.active
    pub capped :
        (tenant_id : String) → length (chains_of tenant_id t.active) ≤ t.max_chains_per_tenant

module _ {F : Type 0} ⦃fl : Float F⦄ (tenant_id scope_id tool_name : String) (now : F)
    (args : Fields F) (cost : F) (principal : Option String) where
  touch-IsUnique :
      (defn : CombinationDef) (active : Dict ChainKey (ActiveChain F))
      → IsUnique active
      → IsUnique (touch tenant_id scope_id tool_name now args cost principal defn active)
  unfolding touch
  touch-IsUnique defn active u = move_to_end-IsUnique _ _ (put-IsUnique _ _ active u)

  touch_all-IsUnique :
      (defs : List CombinationDef) (active : Dict ChainKey (ActiveChain F))
      → IsUnique active
      → IsUnique (touch_all tenant_id scope_id tool_name now args cost principal defs active)
  unfolding touch_all
  touch_all-IsUnique [] active u = u
  touch_all-IsUnique (defn ∷ defs) active u =
      touch_all-IsUnique defs
        (touch tenant_id scope_id tool_name now args cost principal defn active)
        (touch-IsUnique defn active u)

  touch_other :
      (other : String) (defn : CombinationDef) (active : Dict ChainKey (ActiveChain F))
      → (tenant_id == other) ≡ false
      → keep (is_of other) (touch tenant_id scope_id tool_name now args cost principal defn active)
        ≡ keep (is_of other) active
  unfolding touch
  touch_other other defn active ne =
      keep-move_to_end_hidden (is_of other) (key_of tenant_id scope_id defn) _ (λ w. ne)
      ∙ keep-put_hidden (is_of other) (key_of tenant_id scope_id defn) _ active (λ w. ne)

  touch_all_other :
      (other : String) (defs : List CombinationDef) (active : Dict ChainKey (ActiveChain F))
      → (tenant_id == other) ≡ false
      → keep
          (is_of other)
          (touch_all tenant_id scope_id tool_name now args cost principal defs active)
        ≡ keep (is_of other) active
  unfolding touch_all
  touch_all_other other [] active ne = refl
  touch_all_other other (defn ∷ defs) active ne =
      touch_all_other other defs
        (touch tenant_id scope_id tool_name now args cost principal defn active) ne
      ∙ touch_other other defn active ne

  -- the tracker between the loop and the eviction
  touched : List CombinationDef → Tracker F → Tracker F
  touched defs t = record t {
    active = touch_all tenant_id scope_id tool_name now args cost principal defs t.active;
  }

  record_on_other :
      (other : String) (defs : List CombinationDef) (t : Tracker F)
      → (tenant_id == other) ≡ false
      → chains_of other
          (record_on tenant_id scope_id tool_name now args cost principal defs t).1.active
        ≡ chains_of other t.active
  unfolding record_on touched
  record_on_other other [] t ne = refl
  record_on_other other (defn ∷ defs) t ne =
      chains_of-evict_other tenant_id other (touched (defn ∷ defs) t) ne
      ∙ (unfold chains_of in touch_all_other other (defn ∷ defs) t.active ne)

  -- A recorded operation leaves the chains of every other tenant as they were, in their order.
  pub record_op_isolated :
      (other : String) (t : Tracker F)
      → (tenant_id == other) ≡ false
      → chains_of other (record_op tenant_id scope_id tool_name now args cost principal t).1.active
        ≡ chains_of other t.active
  unfolding record_op
  record_op_isolated other t ne = record_on_other other (matching_defs tool_name t) t ne

  record_on-cap :
      (defs : List CombinationDef) (t : Tracker F)
      → (record_on tenant_id scope_id tool_name now args cost principal defs
          t).1.max_chains_per_tenant
        ≡ t.max_chains_per_tenant
  unfolding record_on touched
  record_on-cap [] t = refl
  record_on-cap (defn ∷ defs) t = cap-evict tenant_id (touched (defn ∷ defs) t)

  record_on-IsValid :
      (defs : List CombinationDef) (t : Tracker F)
      → IsValid t
      → IsValid (record_on tenant_id scope_id tool_name now args cost principal defs t).1
  record_on-IsValid [] t v = unfold record_on in v
  record_on-IsValid (defn ∷ defs) t v = record {
    distinct =
        unfold record_on touched in
        evict-IsUnique tenant_id (touched (defn ∷ defs) t)
          (touch_all-IsUnique (defn ∷ defs) t.active v.distinct);
    capped = λ other. elim (Bool-cases (tenant_id == other)) [
      | inl e ↦ rw (record_on-cap (defn ∷ defs) t) (rw (← (eq_iff tenant_id other).0 e) own)
      | inr ne ↦
          rw (record_on-cap (defn ∷ defs) t, record_on_other other (defn ∷ defs) t ne)
            (v.capped other)
    ];
  }
    where
      own :
          length (
            chains_of tenant_id
              (record_on tenant_id scope_id tool_name now args cost principal
                (defn ∷ defs)
                t).1.active)
          ≤ t.max_chains_per_tenant
      own =
          unfold record_on touched in
          rw
            (chains_of-evict_self tenant_id (touched (defn ∷ defs) t)
              (touch_all-IsUnique (defn ∷ defs) t.active v.distinct))
            (omega (
              arith,
              length-drop
                  (length (chains_of tenant_id (touched (defn ∷ defs) t).active)
                    - t.max_chains_per_tenant)
                  (chains_of tenant_id (touched (defn ∷ defs) t).active),
            ))

  -- In a tracker with distinct keys and every tenant within its cap, a recorded operation keeps
  -- both.
  pub record_op-IsValid :
      (t : Tracker F)
      → IsValid t
      → IsValid (record_op tenant_id scope_id tool_name now args cost principal t).1
  unfolding record_op
  record_op-IsValid t v = record_on-IsValid (matching_defs tool_name t) t v
