-- ===== src/Audit/Chain/Restart.antt =====
-- A chain that goes on from a stored head.
use cloudmorph_tessera.Prelude.{
  ℕ, ◌≡◌, ap, sym, ◌∙◌, String, Bool, true, false, some, List, ◌==◌, string_eq, if◌then◌else◌,
}
use cloudmorph_tessera.Python.Float.{Float}
use cloudmorph_tessera.Python.Result.{ok, err, ok-injective, value_error}
use cloudmorph_tessera.Python.Value.{Fields, str, get, IsUnique}
use cloudmorph_tessera.Audit.Chain.{
  HashChain, head, restore_head, tenant_of, stamp, verify_event_hash,
}
use cloudmorph_tessera.Audit.Chain.Stamp.{stamp-Stamped, head-put_self}

either : (b : Bool) (c c' : HashChain) → (if b then err value_error else ok c) ≡ ok c' → c ≡ c'
either true c c' p = cc
either false c c' p = ok-injective p

head-restore_head : (c c' : HashChain) (t h : String) → restore_head c t h ≡ ok c' → head c' t ≡ h
unfolding restore_head
head-restore_head c c' t h p = ap (λ d. head d t) (sym (either _ _ c' p)) ∙ head-put_self t h c

module _ {F : Type 0} ⦃fl : Float F⦄ (sha256 : List ℕ → String) where
  -- Where no hash is the empty text and the event has distinct keys: after a restart that has restored
  -- a tenant's head, that tenant's next stamped event verifies and is linked to the restored hash.
  pub stamp-restore_head :
      (nonempty : (bytes : List ℕ) → (sha256 bytes == "") ≡ false) (c c' c'' : HashChain)
      (t h : String) (event stamped : Fields F)
      → IsUnique event
      → tenant_of (get "tenantId" event) ≡ ok t
      → restore_head c t h ≡ ok c'
      → stamp sha256 c' event ≡ ok (stamped, c'')
      → (verify_event_hash sha256 stamped ≡ ok true) × (get "prevEventHash" stamped ≡ some (str h))
  stamp-restore_head nonempty c c' c'' t h event stamped u owner restored p =
      let (t', owner', s) = stamp-Stamped sha256 nonempty c' event stamped c'' u p in
      (
        s.verified,
        s.links
            ∙ ap (λ o. some (str o))
                (ap (head c') (ok-injective (sym owner' ∙ owner))
                  ∙ head-restore_head c c' t h restored),
      )
