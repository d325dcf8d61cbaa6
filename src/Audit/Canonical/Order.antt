-- ===== src/Audit/Canonical/Order.antt =====
-- The canonical form does not depend on the place of a key in the dict.
use cloudmorph_tessera.Prelude.{
  ◌≡◌, refl, ◌≢◌, String, false, none, arith, ◌==◌, string_eq, eq_iff, Bool-cases, inl, inr,
}
use cloudmorph_tessera.Python.Float.{Float}
use cloudmorph_tessera.Python.Result.{Result, ok, err, ◌>>=◌}
use cloudmorph_tessera.Python.Value.{Value, Fields, str, end, field, get, put, IsUnique, pop}
use cloudmorph_tessera.Python.Json.Order.{insert_field, insert_field_comm}
use cloudmorph_tessera.Audit.Canonical.{normalize, normalize_fields, canonical_json, dict}
use cloudmorph_tessera.Python.Value.Laws.{
  get-cons_ne, put-cons_ne, put-cons_eq, pop-cons_ne, pop-cons_eq,
}

ne_of_beq : (s t : String) → (s == t) ≡ false → t ≢ s
ne_of_beq s t h = ground (arith, eq_iff s t)

module _ {F : Type 0} ⦃fl : Float F⦄ where
  -- the fields with one more key, where that is new
  abbrev with_field : String → Value F → Result (Fields F) → Result (Fields F)
  with_field k v (ok gs) = ok (insert_field k v gs)
  with_field k v (err x) = err x

  normalize_fields-cons :
      (j : String) (w : Value F) (fs : Fields F)
      → normalize_fields (field j w fs)
        ≡ (normalize w >>= λ w'. normalize_fields fs >>= λ gs. ok (insert_field j w' gs))
  unfolding normalize
  normalize_fields-cons j w fs = refl

  with_field_comm :
      (k j : String) (v : Value F) (r : Result (Value F)) (m : Result (Fields F))
      → k ≢ j
      → (r >>= λ w. with_field k v m >>= λ gs. ok (insert_field j w gs))
        ≡ with_field k v (r >>= λ w. m >>= λ gs. ok (insert_field j w gs))
  with_field_comm k j v (err x) m h = refl
  with_field_comm k j v (ok w) (err x) h = refl
  with_field_comm k j v (ok w) (ok gs) h =
      ground (arith, insert_field_comm j k w v gs, insert_field_comm k j v w gs h)

  -- A text under a new key is inserted among the other fields.
  normalize-put_new :
      (k s : String) (fs : Fields F)
      → get k fs ≡ none
      → normalize_fields (put k (str s) fs) ≡ with_field k (str s) (normalize_fields fs)
  normalize-put_new k s end h = unfold put normalize in refl
  normalize-put_new k s (field j w fs) h = elim (Bool-cases (j == k)) [
    | inl e ↦ absurd (unfold get in ground arith)
    | inr e ↦ rw (put-cons_ne k j (str s) w fs e) (
        rw (normalize_fields-cons j w (put k (str s) fs), normalize_fields-cons j w fs)
          (rw (normalize-put_new k s fs (rw (get-cons_ne k j w fs e) at h))
            (with_field_comm k j (str s) (normalize w) (normalize_fields fs) (ne_of_beq j k e))))
  ]

  with_field-cons :
      (k s : String) (m : Result (Fields F))
      → with_field k (str s) m ≡ (normalize (str s) >>= λ w. m >>= λ gs. ok (insert_field k w gs))
  unfolding normalize
  with_field-cons k s (ok gs) = refl
  with_field-cons k s (err x) = refl

  -- A new key may stand in front or at the end.
  normalize-put_front :
      (k s : String) (fs : Fields F)
      → get k fs ≡ none
      → normalize_fields (put k (str s) fs) ≡ normalize_fields (field k (str s) fs)
  normalize-put_front k s fs h =
      rw (normalize-put_new k s fs h, normalize_fields-cons k (str s) fs)
        (with_field-cons k s (normalize_fields fs))

  -- To take a key out and to write it again gives the canonical form of the plain write.
  pub normalize-put-pop :
      (k s : String) (fs : Fields F)
      → IsUnique fs
      → normalize_fields (put k (str s) (pop k fs)) ≡ normalize_fields (put k (str s) fs)
  normalize-put-pop k s end h = unfold pop in refl
  normalize-put-pop k s (field j w fs) h = elim (Bool-cases (j == k)) [
    | inl e ↦
        rw (put-cons_eq k j (str s) w fs e, pop-cons_eq k j w fs e)
          (rw (← (eq_iff j k).0 e) (normalize-put_front j s fs h.0))
    | inr e ↦
        rw
          (
            pop-cons_ne k j w fs e,
            put-cons_ne k j (str s) w fs e,
            put-cons_ne k j (str s) w (pop k fs) e,
          )
          (rw
            (
              normalize_fields-cons j w (put k (str s) fs),
              normalize_fields-cons j w (put k (str s) (pop k fs)),
            )
            (rw (normalize-put-pop k s fs h.1) refl))
  ]

  -- In a dict with distinct keys, to take a key out and to write a text under it gives the same
  -- canonical form as to write the text in its place.
  pub canonical-put-pop :
      (k s : String) (fs : Fields F)
      → IsUnique fs
      → canonical_json (dict (put k (str s) (pop k fs))) ≡ canonical_json (dict (put k (str s) fs))
  unfolding canonical_json
  canonical-put-pop k s fs h = rw (normalize-put-pop k s fs h)
