-- ===== src/Dict/Entries.antt =====
-- The entries of a dict whose keys are distinct: what writes do to them as a sequence.
use cloudmorph_tessera.Prelude.{
  ℕ, zero, suc, ◌≡◌, refl, ap, ◌∙◌, Bool, true, false, Option, none, some, List, [], ◌∷◌, ◌++◌,
  take, drop, keep, arith, Eq, beq_refl, Bool-cases, inl, inr, contains, not,
}
use cloudmorph_tessera.Dict.{
  Dict, keys, get, put, pop, move_to_end, pop_all, get-put, get-pop, get-append,
}
use mathlib.Core.List.{append-nil}

module _ {ℓ κ} {K : Type ℓ} {V : Type κ} ⦃e : Eq K⦄ where
  -- the keys are distinct
  abbrev pub IsUnique : Dict K V → Type (ℓ ⊔ κ)
  IsUnique [] = Unit
  IsUnique ((k, v) ∷ d) = (get k d ≡ none) × IsUnique d

  pub pop_absent : (k : K) (d : Dict K V) → get k d ≡ none → pop k d ≡ d
  unfolding get pop
  pop_absent k [] h = refl
  pop_absent k ((j, v) ∷ d) h = ground (arith, pop_absent k d)

  pub pop-IsUnique : (k : K) (d : Dict K V) → IsUnique d → IsUnique (pop k d)
  unfolding pop get
  pop-IsUnique k [] h = tt
  pop-IsUnique k ((j, v) ∷ d) h = ground (arith, get-pop k j d, pop-IsUnique k d h.1)

  pub put-IsUnique : (k : K) (v : V) (d : Dict K V) → IsUnique d → IsUnique (put k v d)
  unfolding put get
  put-IsUnique k v [] h = (refl, tt)
  put-IsUnique k v ((j, w) ∷ d) h =
      ground (arith, e.beq_iff j k, e.beq_iff k j, get-put k j v d, put-IsUnique k v d h.1)

  append-IsUnique :
      (k : K) (v : V) (d : Dict K V) → IsUnique d → get k d ≡ none → IsUnique (d ++ ((k, v) ∷ []))
  unfolding get
  append-IsUnique k v [] h n = (refl, tt)
  append-IsUnique k v ((j, w) ∷ d) h n =
      ground (
        arith,
        e.beq_iff j k,
        e.beq_iff k j,
        get-append j d ((k, v) ∷ []),
        append-IsUnique k v d h.1,
      )

  pub move_to_end-IsUnique : (k : K) (d : Dict K V) → IsUnique d → IsUnique (move_to_end k d)
  unfolding move_to_end
  move_to_end-IsUnique k d h = end (get k d) refl
    where
      end :
          (o : Option V)
          → get k d ≡ o
          → IsUnique (elim o [ none ↦ d | some v ↦ pop k d ++ ((k, v) ∷ []) ])
      end none p = h
      end (some v) p =
          append-IsUnique k v (pop k d) (pop-IsUnique k d h) (get-pop k k d ∙ rw (beq_refl k))

  pub pop_all-IsUnique : (ks : List K) (d : Dict K V) → IsUnique d → IsUnique (pop_all ks d)
  unfolding pop_all
  pop_all-IsUnique [] d h = h
  pop_all-IsUnique (k ∷ ks) d h = pop_all-IsUnique ks (pop k d) (pop-IsUnique k d h)

  pub keep-pop : (p : K × V → Bool) (k : K) (d : Dict K V) → keep p (pop k d) ≡ pop k (keep p d)
  unfolding pop
  keep-pop p k [] = refl
  keep-pop p k ((j, v) ∷ d) = ground (arith, keep-pop p k d)

  pub keep-pop_all :
      (p : K × V → Bool) (ks : List K) (d : Dict K V)
      → keep p (pop_all ks d) ≡ pop_all ks (keep p d)
  unfolding pop_all
  keep-pop_all p [] d = refl
  keep-pop_all p (k ∷ ks) d = keep-pop_all p ks (pop k d) ∙ ap (pop_all ks) (keep-pop p k d)

  pub get-keep :
      (p : K × V → Bool) (k : K) (d : Dict K V) → get k d ≡ none → get k (keep p d) ≡ none
  unfolding get
  get-keep p k [] h = refl
  get-keep p k ((j, v) ∷ d) h = ground (arith, get-keep p k d)

  pub keep-IsUnique : (p : K × V → Bool) (d : Dict K V) → IsUnique d → IsUnique (keep p d)
  keep-IsUnique p [] h = tt
  keep-IsUnique p ((j, v) ∷ d) h = ground (arith, get-keep p j d, keep-IsUnique p d h.1)

  pop-cons_self : (k : K) (v : V) (d : Dict K V) → get k d ≡ none → pop k ((k, v) ∷ d) ≡ d
  unfolding pop
  pop-cons_self k v d h = ground (arith, e.beq_iff k k, pop_absent k d h)

  -- To pop the first keys is to drop the first entries.
  pub pop_all-take : (n : ℕ) (d : Dict K V) → IsUnique d → pop_all (keys (take n d)) d ≡ drop n d
  unfolding pop_all
  pop_all-take zero d h = refl
  pop_all-take (suc n) [] h = refl
  pop_all-take (suc n) ((k, v) ∷ d) h =
      ap (pop_all (keys (take n d))) (pop-cons_self k v d h.0) ∙ pop_all-take n d h.1

  -- A write under a key that a filter on keys leaves out is not seen behind that filter.
  pub keep-put_hidden :
      (p : K × V → Bool) (k : K) (v : V) (d : Dict K V)
      → ((w : V) → p (k, w) ≡ false)
      → keep p (put k v d) ≡ keep p d
  unfolding put
  keep-put_hidden p k v [] h = ground (arith, h v)
  keep-put_hidden p k v ((j, w) ∷ d) h =
      ground (arith, h v, h w, e.beq_iff j k, keep-put_hidden p k v d h)

  pub keep-pop_hidden :
      (p : K × V → Bool) (k : K) (d : Dict K V)
      → ((w : V) → p (k, w) ≡ false)
      → keep p (pop k d) ≡ keep p d
  unfolding pop
  keep-pop_hidden p k [] h = refl
  keep-pop_hidden p k ((j, w) ∷ d) h = ground (arith, h w, e.beq_iff j k, keep-pop_hidden p k d h)

  pub keep-append : (p : K × V → Bool) (d d' : Dict K V) → keep p (d ++ d') ≡ keep p d ++ keep p d'
  keep-append p [] d' = refl
  keep-append p (x ∷ d) d' = ground (arith, keep-append p d d')

  pub keep-move_to_end_hidden :
      (p : K × V → Bool) (k : K) (d : Dict K V)
      → ((w : V) → p (k, w) ≡ false)
      → keep p (move_to_end k d) ≡ keep p d
  unfolding move_to_end
  keep-move_to_end_hidden p k d h = moved (get k d)
    where
      moved :
          (o : Option V)
          → keep p (elim o [ none ↦ d | some v ↦ pop k d ++ ((k, v) ∷ []) ]) ≡ keep p d
      moved none = refl
      moved (some v) =
          keep-append p (pop k d) ((k, v) ∷ [])
          ∙ rw (h v) (append-nil (keep p (pop k d)) ∙ keep-pop_hidden p k d h)

  -- A filter that a key passes does not hide its entry.
  pub get-keep_kept :
      (p : K × V → Bool) (k : K) (d : Dict K V)
      → ((w : V) → p (k, w) ≡ true)
      → get k (keep p d) ≡ get k d
  unfolding get
  get-keep_kept p k [] h = refl
  get-keep_kept p k ((j, w) ∷ d) h = ground (arith, h w, e.beq_iff j k, get-keep_kept p k d h)

  pub get-drop_absent : (n : ℕ) (k : K) (d : Dict K V) → get k d ≡ none → get k (drop n d) ≡ none
  unfolding get
  get-drop_absent zero k d h = h
  get-drop_absent (suc n) k [] h = h
  get-drop_absent (suc n) k ((j, w) ∷ d) h = get-drop_absent n k d (ground arith)

  pub get-append_last :
      (k : K) (v : V) (d : Dict K V) → get k d ≡ none → get k (d ++ ((k, v) ∷ [])) ≡ some v
  unfolding get
  get-append_last k v [] h = rw (beq_refl k)
  get-append_last k v ((j, w) ∷ d) h = ground (arith, get-append_last k v d)

  pop_all-cons_absent :
      (k : K) (v : V) (ks : List K) (d : Dict K V)
      → contains k ks ≡ false
      → pop_all ks ((k, v) ∷ d) ≡ (k, v) ∷ pop_all ks d
  unfolding pop_all pop
  pop_all-cons_absent k v [] d h = refl
  pop_all-cons_absent k v (j ∷ ks) d h =
      ground (arith, e.beq_iff j k, e.beq_iff k j, pop_all-cons_absent k v ks (pop j d))

  contains-keys : (k : K) (d : Dict K V) → get k d ≡ none → contains k (keys d) ≡ false
  unfolding get
  contains-keys k [] h = refl
  contains-keys k ((j, w) ∷ d) h = ground (arith, e.beq_iff j k, e.beq_iff k j, contains-keys k d)

  -- To pop the keys of the entries that a filter takes is to keep the others.
  pub pop_all-keep :
      (p : K × V → Bool) (d : Dict K V)
      → IsUnique d
      → pop_all (keys (keep p d)) d ≡ keep (λ x. not (p x)) d
  unfolding pop_all
  pop_all-keep p [] h = refl
  pop_all-keep p ((k, v) ∷ d) h = elim (Bool-cases (p (k, v))) [
    | inl stale ↦
        rw stale (ap (pop_all (keys (keep p d))) (pop-cons_self k v d h.0) ∙ pop_all-keep p d h.1)
    | inr fresh ↦ rw fresh (
        pop_all-cons_absent k v (keys (keep p d)) d
          (contains-keys k (keep p d) (get-keep p k d h.0))
        ∙ ap (λ r. (k, v) ∷ r) (pop_all-keep p d h.1))
  ]
