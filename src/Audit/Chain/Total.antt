-- ===== src/Audit/Chain/Total.antt =====
-- tessera/audit/chain.py: when `stamp` returns.
use cloudmorph_tessera.Prelude.{◌≡◌, String, true, false, any, ◌⊎◌, List, ℕ, string_eq}
use cloudmorph_tessera.Dict
use cloudmorph_tessera.Python.Float.{Float}
use cloudmorph_tessera.Python.Result.{ok, err, value_error}
use cloudmorph_tessera.Python.Value.{Value, Fields}
use cloudmorph_tessera.Python.Json.{dumps, is_surrogate}
use cloudmorph_tessera.Audit.Chain.{HashChain, digest, stamp}

module _ {F : Type 0} ⦃fl : Float F⦄ (sha256 : List ℕ → String) where
  -- what the hash of an event with this text comes to
  Digested : Fields F → Value F → Type 0
  Digested event n =
      ((any is_surrogate (dumps n) ≡ false) × (h : String) × (digest sha256 event ≡ ok h))
      ⊎ ((any is_surrogate (dumps n) ≡ true) × (digest sha256 event ≡ err value_error))

  -- whether an event is stamped, by the text of its normal form
  abbrev pub Outcome : HashChain → Fields F → Value F → Type 0
  Outcome c event n =
      ((any is_surrogate (dumps n) ≡ false)
        × (stamped : Fields F) × (c' : HashChain) × (stamp sha256 c event ≡ ok (stamped, c')))
      ⊎ ((any is_surrogate (dumps n) ≡ true) × (stamp sha256 c event ≡ err value_error))
