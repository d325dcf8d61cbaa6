-- ===== src/Dict.antt =====
-- Python's `dict` and `OrderedDict`: the entries in insertion order. A write to a key that is there
-- keeps its place, a new key goes to the end.
pub mod Entries
use cloudmorph_tessera.Prelude.{
  ◌≡◌, refl, Bool, true, false, Option, none, some, List, [], ◌∷◌, ◌++◌, arith, Eq, ◌==◌,
  if◌then◌else◌,
}

abbrev pub Dict {ℓ κ} : Type ℓ → Type κ → Type (ℓ ⊔ κ)
Dict K V = List (K × V)

abbrev pub keys {ℓ κ} : {K : Type ℓ} {V : Type κ} → Dict K V → List K
keys [] = []
keys ((k, v) ∷ d) = k ∷ keys d

module _ {ℓ κ} {K : Type ℓ} {V : Type κ} ⦃e : Eq K⦄ where
  -- `d.get(k)`
  unfoldable pub get : K → Dict K V → Option V
  get k [] = none
  get k ((j, v) ∷ d) = if j == k then some v else get k d

  -- `k in d`
  unfoldable pub has : K → Dict K V → Bool
  has k d = elim (get k d) [ none ↦ false | some _ ↦ true ]

  -- `d[k] = v`
  unfoldable pub put : K → V → Dict K V → Dict K V
  put k v [] = (k, v) ∷ []
  put k v ((j, w) ∷ d) = if j == k then (j, v) ∷ d else (j, w) ∷ put k v d

  -- `d.pop(k, None)`; every entry of that key, so that the laws need no uniqueness
  unfoldable pub pop : K → Dict K V → Dict K V
  pop k [] = []
  pop k ((j, v) ∷ d) = let rest = pop k d in if j == k then rest else (j, v) ∷ rest

  -- `d.move_to_end(k)`
  unfoldable pub move_to_end : K → Dict K V → Dict K V
  move_to_end k d = elim (get k d) [ none ↦ d | some v ↦ pop k d ++ ((k, v) ∷ []) ]

  -- `for k in keys: d.pop(k, None)`
  unfoldable pub pop_all : List K → Dict K V → Dict K V
  pop_all [] d = d
  pop_all (k ∷ keys) d = pop_all keys (pop k d)

  pub move_to_end_found :
      (k : K) (v : V) (d : Dict K V) → get k d ≡ some v → move_to_end k d ≡ pop k d ++ ((k, v) ∷ [])
  unfolding move_to_end
  move_to_end_found k v d h = rw (h, move_to_end)

  pub get-put :
      (k j : K) (v : V) (d : Dict K V) → get j (put k v d) ≡ (if k == j then some v else get j d)
  unfolding get put
  get-put k j v [] = refl
  get-put k j v ((i, w) ∷ d) =
      ground (arith, e.beq_iff k j, e.beq_iff i k, e.beq_iff i j, get-put k j v d)

  pub get-pop : (k j : K) (d : Dict K V) → get j (pop k d) ≡ (if k == j then none else get j d)
  unfolding get pop
  get-pop k j [] = ground arith
  get-pop k j ((i, w) ∷ d) =
      ground (arith, e.beq_iff k j, e.beq_iff i k, e.beq_iff i j, get-pop k j d)

  pub get-put_self : (k : K) (v : V) (d : Dict K V) → get k (put k v d) ≡ some v
  unfolding get put
  get-put_self k v [] = ground (arith, e.beq_iff k k)
  get-put_self k v ((i, w) ∷ d) = ground (arith, e.beq_iff i k, get-put_self k v d)

  pub get-append :
      (k : K) (d d' : Dict K V)
      → get k (d ++ d') ≡ elim (get k d) [ none ↦ get k d' | some v ↦ some v ]
  unfolding get
  get-append k [] d' = refl
  get-append k ((i, w) ∷ d) d' = ground (arith, get-append k d d')

pub ruleset dict_laws = (get-put, get-pop)
