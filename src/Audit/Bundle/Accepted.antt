-- ===== src/Audit/Bundle/Accepted.antt =====
-- What a bundle that is accepted shows.
use cloudmorph_tessera.Prelude.{ℕ, ◌≡◌, String, Option, none, some, List, length, string_eq}
use cloudmorph_tessera.Python.Float.{Float}
use cloudmorph_tessera.Python.Value.{Value, Fields, dict}
use cloudmorph_tessera.Audit.Verifier.Sound.{IsIntact}
use cloudmorph_tessera.Audit.Bundle.{Ed25519, BundleResult}
use cloudmorph_tessera.Audit.Bundle.Signed.{Signed}

module _ {F : Type 0} ⦃fl : Float F⦄ (keys : Ed25519) (sha256 : List ℕ → String) where
  -- who vouches for the events: nobody has to, if no key is trusted and there is no manifest
  abbrev pub Vouched : Option String → List (Fields F) → Option (Option (Value F)) → Type 0
  Vouched trusted events none = trusted ≡ none
  Vouched trusted events (some read) =
      (fs : Fields F) × (read ≡ some (dict fs)) × Signed keys trusted events (dict fs)

  -- the events of a bundle that is accepted
  abbrev pub Accepted :
      Option String → List (Fields F) → Option (Option (Value F)) → BundleResult F → Type 0
  Accepted trusted events manifest result =
      IsIntact sha256 none events
      × (result.walk.events_checked ≡ length events)
      × Vouched trusted events manifest
