-- ===== src/Audit/Verifier/Sound.antt =====
-- The walk accepts exactly the chains whose events verify and are linked, and says where one breaks.
use cloudmorph_tessera.Prelude.{
  ℕ, ◌+◌, ◌≡◌, String, true, false, Option, none, some, List, [], ◌∷◌, ◌++◌, length, ◌⊎◌,
}
use cloudmorph_tessera.Python.Float.{Float}
use cloudmorph_tessera.Python.Result.{ok}
use cloudmorph_tessera.Python.Value.{Value, Fields}
use cloudmorph_tessera.Audit.Chain.{verify_pair, verify_event_hash}
use cloudmorph_tessera.Audit.Verifier.{WalkResult, Failure, check, link_failure, mismatch, broken}

module _ {F : Type 0} ⦃fl : Float F⦄ (sha256 : List ℕ → String) where
  abbrev pub IsLinked : Option (Fields F) → Fields F → Type 0
  IsLinked none event = Unit
  IsLinked (some prev) event = verify_pair prev event ≡ true

  -- Every event has the hash of its content, and the hash of the event before it as its link.
  abbrev pub IsIntact : Option (Fields F) → List (Fields F) → Type 0
  IsIntact prev [] = Unit
  IsIntact prev (event ∷ events) =
      (verify_event_hash sha256 event ≡ ok true)
      × IsLinked prev event
      × IsIntact (some event) events

  pub check-accepts :
      (n : ℕ) (prev : Option (Fields F)) (event : Fields F)
      → verify_event_hash sha256 event ≡ ok true
      → IsLinked prev event
      → check sha256 n prev event ≡ ok none
  unfolding check link_failure
  check-accepts n none event v l = rw v
  check-accepts n (some prev) event v l = rw v (rw l)

  -- What a round that fails has seen.
  abbrev pub Fault : ℕ → Option (Fields F) → Fields F → Failure F → Type 0
  Fault seq prev event f =
      ((verify_event_hash sha256 event ≡ ok false) × (f ≡ mismatch seq event))
      ⊎ ((prev_event : Fields F) × (prev ≡ some prev_event)
          × (verify_event_hash sha256 event ≡ ok true)
          × (verify_pair prev_event event ≡ false)
          × (f ≡ broken seq prev_event event))

  abbrev pub last_of : Option (Fields F) → List (Fields F) → Option (Fields F)
  last_of prev [] = prev
  last_of prev (event ∷ events) = last_of (some event) events

  -- What the loop has found: that all is intact, or the first event at fault.
  abbrev pub Found : ℕ → Option (Fields F) → List (Fields F) → WalkResult F → Type 0
  Found n prev events r =
      ((r.is_ok ≡ true) × (r.events_checked ≡ n + length events) × IsIntact prev events)
      ⊎ ((before : List (Fields F)) × (event : Fields F) × (after : List (Fields F)) × (f : Failure
            F)
          × (r.is_ok ≡ false)
          × (events ≡ before ++ (event ∷ after))
          × IsIntact prev before
          × (r.events_checked ≡ n + length before + 1)
          × (r.first_failure ≡ some f)
          × Fault (n + length before + 1) (last_of prev before) event f)
