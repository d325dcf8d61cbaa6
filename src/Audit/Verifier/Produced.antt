-- ===== src/Audit/Verifier/Produced.antt =====
-- What `HashChain` stamps, the walk accepts, whatever the order in which tenants take turns.
use cloudmorph_tessera.Prelude.{
  ℕ, suc, ◌+◌, ◌≡◌, refl, ap, ◌∙◌, String, Bool, true, false, Option, none, some, List, [], ◌∷◌,
  length, keep, arith, ◌==◌, string_eq, eq_iff, beq_refl, Bool-cases, inl, inr,
}
use cloudmorph_tessera.Python.Float.{Float}
use cloudmorph_tessera.Python.Result.{Result, ok, ◌>>=◌, >>=-eq-ok, ok-injective}
use cloudmorph_tessera.Python.Value.{Value, Fields, null, str, get, get_or, value_eq, IsUnique}
use cloudmorph_tessera.Audit.Chain.{HashChain, head, tenant_of, stamp, verify_pair}
use cloudmorph_tessera.Audit.Chain.Stamp.{Stamped, stamp-Stamped}
use cloudmorph_tessera.Audit.Verifier.{WalkResult, walk_from, walk_chain, first_seen}
use cloudmorph_tessera.Audit.Verifier.Sound.{IsLinked, IsIntact, check-accepts}
use mathlib.Core.Path.{subst}

module _ {F : Type 0} ⦃fl : Float F⦄ where
  -- the rows that a sink keeps under one tenant
  abbrev pub is_tenant : String → Option (Value F) → Bool
  is_tenant t (some (str s)) = s == t
  is_tenant t _ = false

  abbrev pub rows : String → List (Fields F) → List (Fields F)
  rows t = keep (λ event. is_tenant t (get "tenantId" event))

  abbrev pub AllUnique : List (Fields F) → Type 0
  AllUnique [] = Unit
  AllUnique (event ∷ events) = IsUnique event × AllUnique events

  pub tenant_of_inv : (o : Option (Value F)) {t : String} → tenant_of o ≡ ok t → o ≡ some (str t)
  unfolding tenant_of
  tenant_of_inv (some (str s)) p = ground arith
  tenant_of_inv none p = cc
  tenant_of_inv (some _) p = cc

  -- the last row of the tenant carries the head
  abbrev Follows : Option (Fields F) → HashChain → String → Type 0
  Follows none c t = Unit
  Follows (some prev) c t = get "eventHash" prev ≡ some (str (head c t))

module _ {F : Type 0} ⦃fl : Float F⦄ (sha256 : List ℕ → String) where
  -- the events that a run stamps, one after the other
  unfoldable pub stamp_all : HashChain → List (Fields F) → Result (List (Fields F) × HashChain)
  stamp_all c [] = ok ([], c)
  stamp_all c (event ∷ events) = stamp sha256 c event >>= λ (stamped, c').
      stamp_all c' events >>= λ (rest, c''). ok (stamped ∷ rest, c'')

  walk_from_accepts :
      (n : ℕ) (first last : Value F) (prev : Option (Fields F)) (events : List (Fields F))
      → IsIntact sha256 prev events
      → (r : WalkResult F) × (walk_from sha256 n first last prev events ≡ ok r)
        × (r.is_ok ≡ true)
        × (r.events_checked ≡ n + length events)
  unfolding walk_from
  walk_from_accepts n first last prev [] h = (_, refl, refl, omega arith)
  walk_from_accepts n first last prev (event ∷ events) (v, l, h) =
      let rest =
        walk_from_accepts (suc n) (first_seen first (get_or "occurredAt" null event))
          (get_or "occurredAt" null event) (some event) events h in
      rw (check-accepts sha256 (suc n) prev event v l)
        (rest.0, rest.1, rest.2, omega (arith, rest.3))

  link-Stamped :
      (prev : Option (Fields F)) (c : HashChain) (event : Fields F) (t : String)
      (stamped : Fields F) (c' : HashChain)
      → Stamped sha256 c event t stamped c'
      → Follows prev c t
      → IsLinked sha256 prev stamped
  unfolding verify_pair get_or value_eq
  link-Stamped none c event t stamped c' s f = tt
  link-Stamped (some prev) c event t stamped c' s f =
      rw (s.links, get_or) (rw (f, get_or) (beq_refl (head c t)))

  Follows-Stamped :
      (prev : Option (Fields F)) (c : HashChain) (event : Fields F) (u t : String)
      (stamped : Fields F) (c' : HashChain)
      → Stamped sha256 c event u stamped c'
      → (u == t) ≡ false
      → Follows prev c t
      → Follows prev c' t
  Follows-Stamped none c event u t stamped c' s ne f = tt
  Follows-Stamped (some prev) c event u t stamped c' s ne f = rw (s.others t) (rw ne f)

  IsIntact-rows :
      (t owner : String) (prev : Option (Fields F)) (s : Fields F) (rest : List (Fields F))
      → get "tenantId" s ≡ some (str owner)
      → ((owner == t) ≡ true → IsIntact sha256 prev (s ∷ rows t rest))
      → ((owner == t) ≡ false → IsIntact sha256 prev (rows t rest))
      → IsIntact sha256 prev (rows t (s ∷ rest))
  IsIntact-rows t owner prev s rest row mine other = elim (Bool-cases (owner == t)) [
    | inl e ↦ rw row (rw e (mine e))
    | inr e ↦ rw row (rw e (other e))
  ]

  -- In the rows of one tenant the chain goes on from the head that it has.
  stamp_all-IsIntact :
      (nonempty : (bytes : List ℕ) → (sha256 bytes == "") ≡ false) (t : String)
      (prev : Option (Fields F)) (c : HashChain) (events stamped : List (Fields F)) (c' : HashChain)
      → AllUnique events
      → Follows prev c t
      → stamp_all c events ≡ ok (stamped, c')
      → IsIntact sha256 prev (rows t stamped)
  unfolding stamp_all
  stamp_all-IsIntact nonempty t prev c [] stamped c' u f p =
      subst (λ (r : List (Fields F) × HashChain). IsIntact sha256 prev (rows t r.0))
        (ok-injective p) tt
  stamp_all-IsIntact nonempty t prev c (event ∷ events) stamped c' (u, us) f p =
      let (first, p1, q) = >>=-eq-ok (stamp sha256 c event) _ p in
      let (rest, p2, q2) = >>=-eq-ok (stamp_all first.1 events) _ q in
      let (owner, po, s) = stamp-Stamped sha256 nonempty c event first.0 first.1 u p1 in
      subst (λ (r : List (Fields F) × HashChain). IsIntact sha256 prev (rows t r.0))
        (ok-injective q2)
        (IsIntact-rows t owner prev first.0 rest.0 (s.kept "tenantId" ∙ tenant_of_inv _ po)
          (λ e. (
            s.verified,
            link-Stamped prev c event t first.0 first.1
                (subst (λ o. Stamped sha256 c event o first.0 first.1) ((eq_iff owner t).0 e) s) f,
            stamp_all-IsIntact nonempty t (some first.0) first.1 events rest.0 rest.1 us
                (s.tip ∙ ap (λ o. some (str (head first.1 o))) ((eq_iff owner t).0 e)) p2,
          ))
          (λ e.
            stamp_all-IsIntact nonempty t prev first.1 events rest.0 rest.1 us
              (Follows-Stamped prev c event owner t first.0 first.1 s e f) p2))

  -- Where no hash is the empty text and each event has distinct keys: once all events of a run
  -- are stamped, in whatever order the tenants emit and whatever heads the chain had, the rows of
  -- each tenant pass the walk, with every row counted.
  pub stamp_all_verifies :
      (nonempty : (bytes : List ℕ) → (sha256 bytes == "") ≡ false) (t : String) (c : HashChain)
      (events stamped : List (Fields F)) (c' : HashChain)
      → AllUnique events
      → stamp_all c events ≡ ok (stamped, c')
      → (r : WalkResult F) × (walk_chain sha256 (rows t stamped) ≡ ok r)
        × (r.is_ok ≡ true)
        × (r.events_checked ≡ length (rows t stamped))
  unfolding walk_chain
  stamp_all_verifies nonempty t c events stamped c' u p =
      let (r, w, sound, checked) =
        walk_from_accepts 0 null null none (rows t stamped)
          (stamp_all-IsIntact nonempty t none c events stamped c' u tt p) in
      (r, w, sound, omega (arith, checked))
