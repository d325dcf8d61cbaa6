-- ===== src/Audit/Canonical/Total.antt =====
-- tessera/audit/canonical_json.py: on which values the canonical form is defined.
use cloudmorph_tessera.Prelude.{
  ◌≡◌, refl, ap, Bool, true, false, ◌&&◌, ap₂, any, ◌⊎◌, none, some, List, ℕ, and_split, Bool-cases,
  inl, inr,
}
use cloudmorph_tessera.Python.Float.{Float}
use cloudmorph_tessera.Python.Result.{Result, ok, err, value_error, ◌>>=◌}
use cloudmorph_tessera.Python.Value.{
  Value, Values, Fields, null, bool, int, float, str, list, dict, nil, cons, end, field,
}
use cloudmorph_tessera.Python.Json.{dumps, is_surrogate}
use cloudmorph_tessera.Python.Json.Order.{insert_field}
use cloudmorph_tessera.Audit.Canonical.{
  normalize, normalize_items, normalize_fields, normalize_float, canonical_json,
}

and_false : (a b : Bool) → a ≡ true → (a && b) ≡ false → b ≡ false
and_false true b h k = k
and_false false b h k = cc

fails_left :
    {A B : Type 0} (r : Result A) (f : A → Result B)
    → r ≡ err value_error
    → (r >>= f) ≡ err value_error
fails_left r f p = ap (λ m. m >>= f) p

fails_right :
    {A B C : Type 0} (r : Result A) (a : A) (s : Result B) (f : A → B → Result C)
    → r ≡ ok a
    → s ≡ err value_error
    → (r >>= λ x. s >>= f x) ≡ err value_error
fails_right r a s f p q = ap₂ (λ m n. m >>= λ x. n >>= f x) p q

module _ {F : Type 0} ⦃fl : Float F⦄ where
  -- no NaN and no infinity
  unfoldable mutual
    pub finite : Value F → Bool
    finite (float x) = fl.is_finite x
    finite (list vs) = finite_items vs
    finite (dict fs) = finite_fields fs
    finite _ = true

    pub finite_items : Values F → Bool
    finite_items nil = true
    finite_items (cons v vs) = finite v && finite_items vs

    pub finite_fields : Fields F → Bool
    finite_fields end = true
    finite_fields (field k v fs) = finite v && finite_fields fs

  float_returns : (x : F) → fl.is_finite x ≡ true → (w : Value F) × (normalize_float x ≡ ok w)
  unfolding normalize_float
  float_returns x h = (elim (fl.small_integer x) [ none ↦ float x | some n ↦ int n ], rw h refl)

  mutual
    unfolding normalize finite

    normalize_returns : (v : Value F) → finite v ≡ true → (w : Value F) × (normalize v ≡ ok w)
    normalize_returns null h = (_, refl)
    normalize_returns (bool b) h = (_, refl)
    normalize_returns (int n) h = (_, refl)
    normalize_returns (float x) h = float_returns x h
    normalize_returns (str s) h = (_, refl)
    normalize_returns (list vs) h =
        let (ws, p) = normalize_items_returns vs h in
        (list ws, ap (λ r. r >>= λ ws. ok (list ws)) p)
    normalize_returns (dict fs) h =
        let (gs, p) = normalize_fields_returns fs h in
        (dict gs, ap (λ r. r >>= λ gs. ok (dict gs)) p)

    normalize_items_returns :
        (vs : Values F) → finite_items vs ≡ true → (ws : Values F) × (normalize_items vs ≡ ok ws)
    normalize_items_returns nil h = (_, refl)
    normalize_items_returns (cons v vs) h =
        let (w, p) = normalize_returns v (and_split (finite v) _ h).0 in
        let (ws, q) = normalize_items_returns vs (and_split (finite v) _ h).1 in
        (cons w ws, ap₂ (λ r s. r >>= λ w. s >>= λ ws. ok (cons w ws)) p q)

    normalize_fields_returns :
        (fs : Fields F) → finite_fields fs ≡ true → (gs : Fields F) × (normalize_fields fs ≡ ok gs)
    normalize_fields_returns end h = (_, refl)
    normalize_fields_returns (field k v fs) h =
        let (w, p) = normalize_returns v (and_split (finite v) _ h).0 in
        let (gs, q) = normalize_fields_returns fs (and_split (finite v) _ h).1 in
        (insert_field k w gs, ap₂ (λ r s. r >>= λ w. s >>= λ gs. ok (insert_field k w gs)) p q)

  float_rejects : (x : F) → fl.is_finite x ≡ false → normalize_float x ≡ err value_error
  unfolding normalize_float
  float_rejects x h = rw h refl

  mutual
    unfolding normalize finite

    normalize_rejects : (v : Value F) → finite v ≡ false → normalize v ≡ err value_error
    normalize_rejects null h = cc
    normalize_rejects (bool b) h = cc
    normalize_rejects (int n) h = cc
    normalize_rejects (float x) h = float_rejects x h
    normalize_rejects (str s) h = cc
    normalize_rejects (list vs) h = fails_left (normalize_items vs) _ (normalize_items_rejects vs h)
    normalize_rejects (dict fs) h =
        fails_left (normalize_fields fs) _ (normalize_fields_rejects fs h)

    normalize_items_rejects :
        (vs : Values F) → finite_items vs ≡ false → normalize_items vs ≡ err value_error
    normalize_items_rejects nil h = cc
    normalize_items_rejects (cons v vs) h = elim (Bool-cases (finite v)) [
      | inl good ↦
          fails_right (normalize v) (normalize_returns v good).0 (normalize_items vs) _
            (normalize_returns v good).1
            (normalize_items_rejects vs (and_false (finite v) _ good h))
      | inr bad ↦ fails_left (normalize v) _ (normalize_rejects v bad)
    ]

    normalize_fields_rejects :
        (fs : Fields F) → finite_fields fs ≡ false → normalize_fields fs ≡ err value_error
    normalize_fields_rejects end h = cc
    normalize_fields_rejects (field k v fs) h = elim (Bool-cases (finite v)) [
      | inl good ↦
          fails_right (normalize v) (normalize_returns v good).0 (normalize_fields fs) _
            (normalize_returns v good).1
            (normalize_fields_rejects fs (and_false (finite v) _ good h))
      | inr bad ↦ fails_left (normalize v) _ (normalize_rejects v bad)
    ]

  -- what the last step makes of the normalized value
  abbrev pub Encoded : Value F → Value F → Type 0
  Encoded v n =
      ((any is_surrogate (dumps n) ≡ false) × (bytes : List ℕ) × (canonical_json v ≡ ok bytes))
      ⊎ ((any is_surrogate (dumps n) ≡ true) × (canonical_json v ≡ err value_error))
