-- ===== src/Audit/Chain.antt =====
-- tessera/audit/chain.py: `HashChain`. The lock makes each method one step.
pub mod Stamp
pub mod Restart
pub mod Total
use cloudmorph_tessera.Prelude.{
  ℕ, String, Bool, false, not, ◌&&◌, ◌||◌, Option, none, some, List, [], nat_beq, leb, all, length,
  ◌==◌, string_eq, if◌then◌else◌,
}
use cloudmorph_tessera.Dict
use cloudmorph_tessera.Dict.{Dict}
use cloudmorph_tessera.Python.Float.{Float}
use cloudmorph_tessera.Python.Result.{Result, ok, err, value_error, ◌>>=◌}
use cloudmorph_tessera.Python.Value.{
  Value, Fields, null, str, dict, get, get_or, put, pop, truthy, value_eq,
}
use cloudmorph_tessera.Python.Json.{codes}
use cloudmorph_tessera.Audit.Canonical.{canonical_json}

-- the last `eventHash` of each tenant
pub record HashChain : Type 0 where
  pub heads : Dict String String

abbrev pub new_chain : HashChain
new_chain = record { heads = [] }

unfoldable pub head : HashChain → String → String
unfolding Dict.get
head c tenant_id = elim (Dict.get tenant_id c.heads) [ none ↦ "" | some h ↦ h ]

-- `c in "0123456789abcdef"`
is_hex : ℕ → Bool
is_hex c = (leb 48 c && leb c 57) || (leb 97 c && leb c 102)

unfoldable pub restore_head : HashChain → String → String → Result HashChain
unfolding is_hex Dict.put
restore_head c tenant_id head_hash =
    if not (head_hash == "")
      && (not (nat_beq (length (codes head_hash)) 64) || not (all is_hex (codes head_hash)))
    then err value_error
    else ok (record { heads = Dict.put tenant_id head_hash c.heads })

module _ {F : Type 0} ⦃fl : Float F⦄ where
  -- the test on `event.get("tenantId")`: a text that is not empty
  unfoldable pub tenant_of : Option (Value F) → Result String
  tenant_of (some (str s)) = if s == "" then err value_error else ok s
  tenant_of _ = err value_error

  -- `{**event, "eventHash": "", "signature": ""}`
  unfoldable pub digest_input : Fields F → Fields F
  unfolding put
  digest_input event = put "signature" (str "") (put "eventHash" (str "") event)

  -- `prevEventHash`, the blank `eventHash` and the signature, written over the event
  unfoldable pub linked : String → Fields F → Fields F
  unfolding put get_or
  linked prev event =
      put "signature" (get_or "signature" (str "") event)
        (put "eventHash" (str "") (put "prevEventHash" (str prev) event))

  -- the hash, without an empty signature
  unfoldable pub sealed : String → Fields F → Fields F
  unfolding put pop get_or truthy
  sealed event_hash stamped =
      if truthy (get_or "signature" null (put "eventHash" (str event_hash) stamped))
      then put "eventHash" (str event_hash) stamped
      else pop "signature" (put "eventHash" (str event_hash) stamped)

  unfoldable pub verify_pair : Fields F → Fields F → Bool
  unfolding get_or value_eq
  verify_pair prev_event next_event =
      value_eq (get_or "prevEventHash" (str "") next_event) (get_or "eventHash" (str "") prev_event)

module _ {F : Type 0} ⦃fl : Float F⦄ (sha256 : List ℕ → String) where
  -- `hashlib.sha256(canonical_json(digest_input)).hexdigest()`
  unfoldable pub digest : Fields F → Result String
  unfolding digest_input canonical_json
  digest event = do bytes ← canonical_json (dict (digest_input event)); ok (sha256 bytes)

  unfoldable pub stamp : HashChain → Fields F → Result (Fields F × HashChain)
  unfolding tenant_of linked digest sealed head get Dict.put
  stamp c event = do
    tenant_id ← tenant_of (get "tenantId" event)
    event_hash ← digest (linked (head c tenant_id) event)
    ok (
      sealed event_hash (linked (head c tenant_id) event),
      record { heads = Dict.put tenant_id event_hash c.heads },
    )

  unfoldable pub verify_event_hash : Fields F → Result Bool
  unfolding get_or truthy digest value_eq
  verify_event_hash event =
      if truthy (get_or "eventHash" (str "") event)
      then (do
        recomputed ← digest event
        ok (value_eq (get_or "eventHash" (str "") event) (str recomputed)))
      else ok false
