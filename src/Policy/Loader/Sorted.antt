-- ===== src/Policy/Loader/Sorted.antt =====
-- The loader's orders are orders, and lose no policy and no condition.
use cloudmorph_tessera.Prelude.{
  ℕ, ◌+◌, ◌≡◌, refl, ap, ap₂, ◌∙◌, Bool, true, false, ◌||◌, List, [], ◌∷◌, any, leb, nat_beq, ltb_ℤ,
  ℤ, pos, negsuc, arith, ◌⊎◌, Bool-cases, inl, inr, if◌then◌else◌,
}
use cloudmorph_tessera.Python.Json.Order.{str_lt, str_lt_asym}
use cloudmorph_tessera.Policy.Schema.{Policy, Condition, Conditions, done, also, any_of, none_of}
use cloudmorph_tessera.Policy.Loader.{
  condition_tier, insert_condition, sort_conditions, sort_nested, precedes, insert_policy,
  sorted_policies,
}

ltb_ℤ_asym : (m n : ℤ) → ltb_ℤ m n ≡ true → ltb_ℤ n m ≡ false
ltb_ℤ_asym (pos m) (pos n) h = ground arith
ltb_ℤ_asym (pos m) (negsuc n) h = ground arith
ltb_ℤ_asym (negsuc m) (pos n) h = ground arith
ltb_ℤ_asym (negsuc m) (negsuc n) h = ground arith

leb_total : (m n : ℕ) → leb m n ≡ false → leb n m ≡ true
leb_total m n h = ground arith

module _ {F : Type 0} where
  precedes_total : (p q : Policy F) → precedes p q ≡ false → precedes q p ≡ true
  unfolding precedes
  precedes_total p q h = ground (
    arith,
    ltb_ℤ_asym p.priority q.priority,
    ltb_ℤ_asym q.priority p.priority,
    str_lt_asym q.id p.id,
  )

  -- each policy precedes the next
  abbrev IsOrdered : List (Policy F) → Type 0
  IsOrdered [] = Unit
  IsOrdered (p ∷ []) = Unit
  IsOrdered (p ∷ q ∷ policies) = (precedes p q ≡ true) × IsOrdered (q ∷ policies)

  insert_after :
      (q p : Policy F) (policies : List (Policy F))
      → precedes q p ≡ true
      → IsOrdered (q ∷ policies)
      → IsOrdered (insert_policy p policies)
      → IsOrdered (q ∷ insert_policy p policies)
  unfolding insert_policy
  insert_after q p [] h o i = (h, tt)
  insert_after q p (r ∷ policies) h o i = elim (Bool-cases (precedes p r)) [
    | inl first ↦ rw first (h, (first, o.1))
    | inr later ↦ rw later (o.0, (rw later at i))
  ]

  rest-IsOrdered :
      (q : Policy F) (policies : List (Policy F)) → IsOrdered (q ∷ policies) → IsOrdered policies
  rest-IsOrdered q [] o = tt
  rest-IsOrdered q (r ∷ policies) o = o.1

  insert-IsOrdered :
      (p : Policy F) (policies : List (Policy F))
      → IsOrdered policies
      → IsOrdered (insert_policy p policies)
  unfolding insert_policy
  insert-IsOrdered p [] o = tt
  insert-IsOrdered p (q ∷ policies) o = elim (Bool-cases (precedes p q)) [
    | inl first ↦ rw first (first, o)
    | inr later ↦ rw later (
        insert_after q p policies (precedes_total p q later) o
          (insert-IsOrdered p policies (rest-IsOrdered q policies o)))
  ]

  any-insert :
      (test : Policy F → Bool) (p : Policy F) (policies : List (Policy F))
      → any test (insert_policy p policies) ≡ (test p || any test policies)
  unfolding insert_policy
  any-insert test p [] = refl
  any-insert test p (q ∷ policies) = ground (arith, any-insert test p policies)

  sorted-IsOrdered : (policies : List (Policy F)) → IsOrdered (sorted_policies policies)
  unfolding sorted_policies
  sorted-IsOrdered [] = tt
  sorted-IsOrdered (p ∷ policies) =
      insert-IsOrdered p (sorted_policies policies) (sorted-IsOrdered policies)

  any-sorted :
      (test : Policy F → Bool) (policies : List (Policy F))
      → any test (sorted_policies policies) ≡ any test policies
  unfolding sorted_policies
  any-sorted test [] = refl
  any-sorted test (p ∷ policies) =
      any-insert test p (sorted_policies policies)
      ∙ ap (λ b. test p || b) (any-sorted test policies)

  -- the priorities fall, and the ids of one priority rise
  abbrev pub IsFalling : List (Policy F) → Type 0
  IsFalling [] = Unit
  IsFalling (p ∷ []) = Unit
  IsFalling (p ∷ q ∷ policies) =
      (ltb_ℤ p.priority q.priority ≡ false)
      × ((ltb_ℤ q.priority p.priority ≡ true) ⊎ (str_lt q.id p.id ≡ false))
      × IsFalling (q ∷ policies)

  precedes-falls :
      (p q : Policy F)
      → precedes p q ≡ true
      → (ltb_ℤ p.priority q.priority ≡ false)
        × ((ltb_ℤ q.priority p.priority ≡ true) ⊎ (str_lt q.id p.id ≡ false))
  unfolding precedes
  precedes-falls p q h = elim (Bool-cases (ltb_ℤ q.priority p.priority)) [
    | inl higher ↦ (ltb_ℤ_asym q.priority p.priority higher, inl higher)
    | inr other ↦ elim (Bool-cases (ltb_ℤ p.priority q.priority)) [
      | inl lower ↦ absurd (ground (arith, h, other, lower))
      | inr same ↦ (same, inr (ground (arith, h, other, same)))
    ]
  ]

  ordered-IsFalling : (policies : List (Policy F)) → IsOrdered policies → IsFalling policies
  ordered-IsFalling [] h = tt
  ordered-IsFalling (p ∷ []) h = tt
  ordered-IsFalling (p ∷ q ∷ policies) (before, h) =
      let (falls, rises) = precedes-falls p q before in
      (falls, rises, ordered-IsFalling (q ∷ policies) h)

  -- The loaded policies come by falling priority, and by rising id within one priority; and a
  -- test holds of one of them exactly if it holds of one of the policies in the files.
  pub sorted_policies-IsFalling :
      (policies : List (Policy F)) (test : Policy F → Bool)
      → IsFalling (sorted_policies policies)
        × (any test (sorted_policies policies) ≡ any test policies)
  sorted_policies-IsFalling policies test =
      (ordered-IsFalling _ (sorted-IsOrdered policies), any-sorted test policies)

  -- each condition is no dearer than the next
  abbrev pub IsTiered : Conditions F → Type 0
  IsTiered done = Unit
  IsTiered (also c done) = Unit
  IsTiered (also c (also d conds)) =
      (leb (condition_tier c) (condition_tier d) ≡ true) × IsTiered (also d conds)

  -- the conditions of a tier
  abbrev pub count_tier : ℕ → Conditions F → ℕ
  count_tier k done = 0
  count_tier k (also c conds) = (if nat_beq (condition_tier c) k then 1 else 0) + count_tier k conds

  rest-IsTiered :
      (c : Condition F) (conds : Conditions F) → IsTiered (also c conds) → IsTiered conds
  rest-IsTiered c done o = tt
  rest-IsTiered c (also d conds) o = o.1

  IsTiered-after :
      (d c : Condition F) (conds : Conditions F)
      → leb (condition_tier d) (condition_tier c) ≡ true
      → IsTiered (also d conds)
      → IsTiered (insert_condition c conds)
      → IsTiered (also d (insert_condition c conds))
  unfolding insert_condition
  IsTiered-after d c done h o i = (h, tt)
  IsTiered-after d c (also e conds) h o i =
      elim (Bool-cases (leb (condition_tier c) (condition_tier e))) [
        | inl first ↦ rw first (h, (first, o.1))
        | inr later ↦ rw later (o.0, (rw later at i))
      ]

  insert-IsTiered :
      (c : Condition F) (conds : Conditions F)
      → IsTiered conds
      → IsTiered (insert_condition c conds)
  unfolding insert_condition
  insert-IsTiered c done o = tt
  insert-IsTiered c (also d conds) o =
      elim (Bool-cases (leb (condition_tier c) (condition_tier d))) [
        | inl first ↦ rw first (first, o)
        | inr later ↦ rw later (
            IsTiered-after d c conds (leb_total (condition_tier c) (condition_tier d) later) o
              (insert-IsTiered c conds (rest-IsTiered d conds o)))
      ]

  count-insert :
      (k : ℕ) (c : Condition F) (conds : Conditions F)
      → count_tier k (insert_condition c conds) ≡ count_tier k (also c conds)
  unfolding insert_condition
  count-insert k c done = refl
  count-insert k c (also d conds) = ground (arith, count-insert k c conds)

  tier-nested : (c : Condition F) → condition_tier (sort_nested c) ≡ condition_tier c
  unfolding sort_conditions condition_tier
  tier-nested (any_of conditions) = refl
  tier-nested (none_of conditions) = refl
  tier-nested _ = refl

  sort-IsTiered : (conds : Conditions F) → IsTiered (sort_conditions conds)
  unfolding sort_conditions
  sort-IsTiered done = tt
  sort-IsTiered (also c conds) =
      insert-IsTiered (sort_nested c) (sort_conditions conds) (sort-IsTiered conds)

  count-sort :
      (k : ℕ) (conds : Conditions F) → count_tier k (sort_conditions conds) ≡ count_tier k conds
  unfolding sort_conditions
  count-sort k done = refl
  count-sort k (also c conds) =
      count-insert k (sort_nested c) (sort_conditions conds)
      ∙ ap₂ (λ t n. (if nat_beq t k then 1 else 0) + n) (tier-nested c) (count-sort k conds)

  -- The sorted conditions of a policy come by rising cost tier, with as many of each tier as before.
  pub sort_conditions-IsTiered :
      (conds : Conditions F) (k : ℕ)
      → IsTiered (sort_conditions conds)
        × (count_tier k (sort_conditions conds) ≡ count_tier k conds)
  sort_conditions-IsTiered conds k = (sort-IsTiered conds, count-sort k conds)
