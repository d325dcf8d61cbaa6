-- ===== src/Audit/Chain/Stamp.antt =====
-- What `stamp` promises: the stamped event verifies, is linked to the head, and becomes the head.
use cloudmorph_tessera.Prelude.{
  ℕ, ◌≡◌, refl, String, Bool, true, false, none, some, List, arith, ◌==◌, string_eq, eq_iff,
  beq_refl, Bool-cases, inl, inr, if◌then◌else◌, ap, sym, ◌||◌,
}
use cloudmorph_tessera.Dict
use cloudmorph_tessera.Dict.{get-put_self}
use cloudmorph_tessera.Python.Float.{Float}
use cloudmorph_tessera.Python.Result.{ok, >>=-eq-ok}
use cloudmorph_tessera.Python.Value.{
  Fields, null, str, dict, get, get_or, put, truthy, value_eq, IsUnique,
}
use cloudmorph_tessera.Python.Value.Laws.{
  get-put, get-put_ne, get-pop_ne, put-put, put-pop_comm, put-IsUnique,
}
use cloudmorph_tessera.Audit.Canonical.{canonical_json}
use cloudmorph_tessera.Audit.Canonical.Order.{canonical-put-pop}
use cloudmorph_tessera.Audit.Chain.{
  HashChain, head, tenant_of, digest_input, linked, sealed, digest, stamp, verify_event_hash,
}
use mathlib.Core.Path.{subst}

pub head-put_self :
    (t h : String) (c : HashChain) → head (record { heads = Dict.put t h c.heads }) t ≡ h
unfolding head
head-put_self t h c = ground (arith, Dict.get-put_self t h c.heads)

head-put_ne :
    (t h u : String) (c : HashChain)
    → (t == u) ≡ false
    → head (record { heads = Dict.put t h c.heads }) u ≡ head c u
unfolding head
head-put_ne t h u c ne = ground (arith, Dict.get-put t u h c.heads)

head-put :
    (t h u : String) (c : HashChain)
    → head (record { heads = Dict.put t h c.heads }) u
      ≡ (if t == u then head (record { heads = Dict.put t h c.heads }) t else head c u)
head-put t h u c = elim (Bool-cases (t == u)) [
  | inl e ↦ rw e (ap (head (record { heads = Dict.put t h c.heads })) (sym ((eq_iff t u).0 e)))
  | inr ne ↦ rw ne (head-put_ne t h u c ne)
]

-- the keys that `stamp` writes
abbrev pub is_chain_key : String → Bool
is_chain_key k = "signature" == k || "eventHash" == k || "prevEventHash" == k

module _ {F : Type 0} ⦃fl : Float F⦄ where
  linked-IsUnique :
      (prev : String) (event : Fields F) → IsUnique event → IsUnique (linked prev event)
  unfolding linked
  linked-IsUnique prev event h = put-IsUnique _ _ _ (put-IsUnique _ _ _ (put-IsUnique _ _ _ h))

  -- The hash and an empty signature do not count in the digest.
  canonical-sealed :
      (h : String) (e : Fields F)
      → IsUnique e
      → canonical_json (dict (digest_input (sealed h e))) ≡ canonical_json (dict (digest_input e))
  unfolding digest_input sealed
  canonical-sealed h e u =
      elim (Bool-cases (truthy (get_or "signature" null (put "eventHash" (str h) e)))) [
        | inl signed ↦ rw signed (rw (put-put "eventHash" (str "") (str h) e))
        | inr unsigned ↦ rw unsigned (
            rw (put-pop_comm "eventHash" "signature" (str "") (put "eventHash" (str h) e) refl) (
              rw (put-put "eventHash" (str "") (str h) e) (
                canonical-put-pop "signature" "" (put "eventHash" (str "") e)
                  (put-IsUnique _ _ _ u))))
      ]

  get-sealed :
      (k h : String) (e : Fields F)
      → (("signature" == k) ≡ false)
      → get k (sealed h e) ≡ (if "eventHash" == k then some (str h) else get k e)
  unfolding sealed
  get-sealed k h e ne =
      elim (Bool-cases (truthy (get_or "signature" null (put "eventHash" (str h) e)))) [
        | inl signed ↦ rw signed (get-put "eventHash" k (str h) e)
        | inr unsigned ↦ rw unsigned (
            rw (get-pop_ne "signature" k (put "eventHash" (str h) e) ne)
              (get-put "eventHash" k (str h) e))
      ]

  get-linked :
      (k prev : String) (e : Fields F)
      → (("signature" == k) ≡ false)
      → (("eventHash" == k) ≡ false)
      → get k (linked prev e) ≡ (if "prevEventHash" == k then some (str prev) else get k e)
  unfolding linked
  get-linked k prev e s h =
      rw (get-put_ne "signature" k _ _ s, get-put_ne "eventHash" k _ _ h)
        (get-put "prevEventHash" k (str prev) e)

  kept-sealed :
      (h prev : String) (e : Fields F) (k : String)
      → (if is_chain_key k then none else get k (sealed h (linked prev e)))
        ≡ (if is_chain_key k then none else get k e)
  kept-sealed h prev e k = ground (arith, get-sealed k h (linked prev e), get-linked k prev e)

module _ {F : Type 0} ⦃fl : Float F⦄ (sha256 : List ℕ → String) where
  digest-sealed :
      (h : String) (e : Fields F) → IsUnique e → digest sha256 (sealed h e) ≡ digest sha256 e
  unfolding digest
  digest-sealed h e u = rw (canonical-sealed h e u)

  -- A stored hash that is not empty and that the digest gives again verifies.
  verify-of-digest :
      (e : Fields F) (h : String)
      → get "eventHash" e ≡ some (str h)
      → (h == "") ≡ false
      → digest sha256 e ≡ ok h
      → verify_event_hash sha256 e ≡ ok true
  unfolding verify_event_hash get_or truthy value_eq
  verify-of-digest e h stored full d =
      rw (stored, get_or) (rw (full, truthy) (rw d (ap ok (beq_refl h))))

  -- What the stamp of `event` for `tenant_id` has done.
  pub record Stamped (c : HashChain) (event : Fields F) (tenant_id : String) (stamped : Fields F)
      (c' : HashChain) : Type 0 where
    pub verified : verify_event_hash sha256 stamped ≡ ok true
    pub links : get "prevEventHash" stamped ≡ some (str (head c tenant_id))
    pub tip : get "eventHash" stamped ≡ some (str (head c' tenant_id))
    pub others : (u : String) → head c' u ≡ (if tenant_id == u then head c' tenant_id else head c u)
    pub kept :
        (k : String)
        → (if is_chain_key k then none else get k stamped)
          ≡ (if is_chain_key k then none else get k event)

  stamp_inv :
      (c : HashChain) (event : Fields F) {r : Fields F × HashChain}
      → stamp sha256 c event ≡ ok r
      → (t : String) × (h : String) × (tenant_of (get "tenantId" event) ≡ ok t)
        × (digest sha256 (linked (head c t) event) ≡ ok h)
        × ((sealed h (linked (head c t) event), record { heads = Dict.put t h c.heads }) ≡ r)
  unfolding stamp
  stamp_inv c event p =
      let (t, pt, q) = >>=-eq-ok (tenant_of (get "tenantId" event)) _ p in
      let (h, ph, q') = >>=-eq-ok (digest sha256 (linked (head c t) event)) _ q in
      (t, h, pt, ph, cc)

  digest-nonempty :
      (nonempty : (bytes : List ℕ) → (sha256 bytes == "") ≡ false) (e : Fields F) (h : String)
      → digest sha256 e ≡ ok h
      → (h == "") ≡ false
  unfolding digest
  digest-nonempty nonempty e h p =
      let (bytes, _, q) = >>=-eq-ok (canonical_json (dict (digest_input e))) _ p in
      elim (Bool-cases (h == "")) [ inl empty ↦ cc (nonempty bytes) | inr full ↦ full ]

  Stamped-sealed :
      (nonempty : (bytes : List ℕ) → (sha256 bytes == "") ≡ false) (c : HashChain)
      (event : Fields F) (t h : String)
      → IsUnique event
      → digest sha256 (linked (head c t) event) ≡ ok h
      → Stamped c event t
          (sealed h (linked (head c t) event))
          (record { heads = Dict.put t h c.heads })
  Stamped-sealed nonempty c event t h u d = record {
    verified =
        verify-of-digest _ h (get-sealed "eventHash" h L refl) (digest-nonempty nonempty L h d)
          (rw (digest-sealed h L (linked-IsUnique _ event u)) d);
    links =
        rw (get-sealed "prevEventHash" h L refl)
          (get-linked "prevEventHash" (head c t) event refl refl);
    tip = rw (get-sealed "eventHash" h L refl) (ap (λ x. some (str x)) (sym (head-put_self t h c)));
    others = λ v. head-put t h v c;
    kept = kept-sealed h (head c t) event;
  }
    where
      L : Fields F
      L = linked (head c t) event

  -- Where no hash is the empty text and the event has distinct keys: when `stamp` returns, the
  -- event names a tenant, and the returned event verifies, is linked to that tenant's head and is
  -- its new head; other heads, and all keys but the three of the chain, stay as they were.
  pub stamp-Stamped :
      (nonempty : (bytes : List ℕ) → (sha256 bytes == "") ≡ false) (c : HashChain)
      (event stamped : Fields F) (c' : HashChain)
      → IsUnique event
      → stamp sha256 c event ≡ ok (stamped, c')
      → (t : String) × (tenant_of (get "tenantId" event) ≡ ok t) × Stamped c event t stamped c'
  stamp-Stamped nonempty c event stamped c' u p =
      let (t, h, pt, ph, q) = stamp_inv c event p in
      (
        t,
        pt,
        subst (λ (r : Fields F × HashChain). Stamped c event t r.0 r.1) q
            (Stamped-sealed nonempty c event t h u ph),
      )
