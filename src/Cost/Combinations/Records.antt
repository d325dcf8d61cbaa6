-- ===== src/Cost/Combinations/Records.antt =====
-- What a recorded operation does to its chain.
use cloudmorph_tessera.Prelude.{
  ℕ, ◌-◌, ◌≤◌, ◌≡◌, refl, ap, sym, ◌∙◌, String, Option, none, some, List, [], ◌∷◌, ◌++◌, length,
  drop, zero, suc, arith, string_eq, beq_refl, length-append,
}
use cloudmorph_tessera.Dict
use cloudmorph_tessera.Dict.{Dict, get-pop, get-put_self, move_to_end_found}
use cloudmorph_tessera.Dict.Entries.{
  IsUnique, get-keep_kept, get-drop_absent, get-append_last, keep-append, put-IsUnique,
  move_to_end-IsUnique,
}
use cloudmorph_tessera.Python.Float.{Float}
use cloudmorph_tessera.Python.Value.{Fields}
use cloudmorph_tessera.Cost.Combinations.{
  CombinationDef, ActiveChain, ChainKey, key_eq, key_of, Tracker, is_of, chains_of, evict_if_needed,
  extended, current_chain, touch, touch_all, matching_defs, record_on, record_op,
}
use cloudmorph_tessera.Cost.Combinations.Eviction.{chains_of-evict_self}

drop-append :
    {A : Type 0} (n : ℕ) (xs ys : List A) → n ≤ length xs → drop n (xs ++ ys) ≡ drop n xs ++ ys
drop-append zero xs ys h = refl
drop-append (suc n) [] ys h = absurd (omega arith)
drop-append (suc n) (x ∷ xs) ys h = drop-append n xs ys (omega arith)

module _ {F : Type 0} where
  get-chains_of :
      (key : ChainKey) (active : Dict ChainKey (ActiveChain F))
      → Dict.get key (chains_of key.tenant_id active) ≡ Dict.get key active
  unfolding chains_of
  get-chains_of key active =
      get-keep_kept (is_of key.tenant_id) key active (λ chain. beq_refl key.tenant_id)

  chains_of-append_own :
      (key : ChainKey) (chain : ActiveChain F) (older : Dict ChainKey (ActiveChain F))
      → chains_of key.tenant_id (older ++ ((key, chain) ∷ []))
        ≡ chains_of key.tenant_id older ++ ((key, chain) ∷ [])
  unfolding chains_of
  chains_of-append_own key chain older =
      keep-append (is_of key.tenant_id) older ((key, chain) ∷ []) ∙ rw (beq_refl key.tenant_id)

  -- With a cap of one or more the newest chain is never evicted.
  evict_newest :
      (key : ChainKey) (chain : ActiveChain F) (older : Dict ChainKey (ActiveChain F))
      (t : Tracker F)
      → t.active ≡ older ++ ((key, chain) ∷ [])
      → IsUnique t.active
      → Dict.get key older ≡ none
      → 1 ≤ t.max_chains_per_tenant
      → Dict.get key (evict_if_needed key.tenant_id t).active ≡ some chain
  evict_newest key chain older t split u new room =
      sym (get-chains_of key (evict_if_needed key.tenant_id t).active)
      ∙ ap (Dict.get key) (chains_of-evict_self key.tenant_id t u)
      ∙ rw (split, chains_of-append_own key chain older)
          (rw
            (drop-append (excess (chains_of key.tenant_id older)) (chains_of key.tenant_id older)
              ((key, chain) ∷ [])
              (omega (arith, length-append (chains_of key.tenant_id older) ((key, chain) ∷ []))))
            (get-append_last key chain _ (
              get-drop_absent _ key (chains_of key.tenant_id older)
                (get-chains_of key older ∙ new))))
    where
      excess : Dict ChainKey (ActiveChain F) → ℕ
      excess d = length (d ++ ((key, chain) ∷ [])) - t.max_chains_per_tenant

module _ {F : Type 0} ⦃fl : Float F⦄ (tenant_id scope_id tool_name : String) (now : F)
    (args : Fields F) (cost : F) (principal : Option String) where
  -- Where the tool triggers one combination, the chain of the call is not evicted.
  pub get-record_op :
      (defn : CombinationDef) (t : Tracker F)
      → matching_defs tool_name t ≡ defn ∷ []
      → IsUnique t.active
      → 1 ≤ t.max_chains_per_tenant
      → Dict.get
          (key_of tenant_id scope_id defn)
          (record_op tenant_id scope_id tool_name now args cost principal t).1.active
        ≡ some (
            extended tool_name now args cost principal
              (current_chain now defn (Dict.get (key_of tenant_id scope_id defn) t.active)))
  unfolding record_op record_on touch_all touch
  get-record_op defn t one u room = rw one (
      evict_newest key chain (Dict.pop key written)
        (record t { active = Dict.move_to_end key written })
        (move_to_end_found key chain written (get-put_self key chain t.active))
        (move_to_end-IsUnique key written (put-IsUnique key chain t.active u))
        (get-pop key key written ∙ rw (beq_refl key)) room)
    where
      key : ChainKey
      key = key_of tenant_id scope_id defn

      chain : ActiveChain F
      chain =
          extended tool_name now args cost principal
            (current_chain now defn (Dict.get key t.active))

      written : Dict ChainKey (ActiveChain F)
      written = Dict.put key chain t.active
