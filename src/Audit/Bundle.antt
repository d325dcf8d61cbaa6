-- ===== src/Audit/Bundle.antt =====
-- tessera/audit/verifier.py: `verify_bundle_dir`, on the files of a bundle as they are read: the events
-- and the manifest, if they exist. The Ed25519 keys and their signatures are parameters, and so are
-- `hashlib` and the JSON parser.
pub mod Directory
pub mod Signed
pub mod Accepted
use cloudmorph_tessera.Prelude.{
  ℕ, String, Bool, true, false, not, ◌&&◌, Option, none, some, List, ◌==◌, string_eq, if◌then◌else◌,
}
use cloudmorph_tessera.Python.Float.{Float}
use cloudmorph_tessera.Python.Result.{Result, ok, err, attribute_error, ◌>>=◌}
use cloudmorph_tessera.Python.Value.{Value, Fields, null, str, dict, end, get_or, truthy, value_eq}
use cloudmorph_tessera.Audit.Export.{
  Summary, or_else, summarize_events, event_counts_of, chain_of, chain_core, signing_payload,
}
use cloudmorph_tessera.Audit.Verifier.{
  Kind, signature_invalid, signer_untrusted, manifest_mismatch, Failure, WalkResult,
}

-- a public key in its DER form, and `verify` of tessera/audit/signing.py on texts
pub record Ed25519 : Type 0 where
  pub public_key_identity : String → Option String
  pub verify_text : String → List ℕ → String → Bool

pub record BundleResult (F : Type 0) : Type 0 where
  pub walk : WalkResult F
  pub signature_ok : Option Bool
  pub signature_trusted : Option Bool
  pub manifest_consistent : Option Bool

-- what the manifest has shown
pub record Checks : Type 0 where
  pub is_signed : Bool
  pub trust : Option Bool
  pub trusted_key_matches : Bool
  pub is_consistent : Bool

module _ {F : Type 0} where
  -- a failure that stands for no event
  unfoldable pub failure_of : Kind → Failure F
  failure_of kind = record {
    seq = none;
    event_id = str "";
    kind = kind;
    expected_event_hash = str "";
    computed_event_hash = str "";
  }

  -- a result before the walk
  abbrev pub unwalked : Kind → WalkResult F
  unwalked kind = record {
    events_checked = 0;
    first_event_at = null;
    last_event_at = null;
    is_ok = false;
    first_failure = some (failure_of kind);
  }

  -- `{**result, "ok": False, "first_failure": ...}`
  abbrev pub failed : Kind → WalkResult F → WalkResult F
  failed kind r = record r { is_ok = false; first_failure = some (failure_of kind) }

  -- `if result["ok"]: ...`
  unfoldable pub concluded : Option Kind → WalkResult F → WalkResult F
  concluded none r = r
  concluded (some kind) r = if r.is_ok then failed kind r else r

-- the three tests on an intact chain
unfoldable pub first_fault : Option String → Checks → Option Kind
first_fault trusted c = if not c.is_signed then some signature_invalid else elim trusted [
  | none ↦ if c.is_consistent then none else some manifest_mismatch
  | some pem ↦
      if not c.trusted_key_matches
      then some signer_untrusted
      else if c.is_consistent
      then none
      else some manifest_mismatch
]

-- two keys that are valid and the same
abbrev pub same_key : Option String → Option String → Bool
same_key (some a) (some b) = a == b
same_key (some a) none = false
same_key none b = false

-- the key that is trusted, if it is valid
abbrev pub trusted_identity : Ed25519 → Option String → Option String
trusted_identity keys none = none
trusted_identity keys (some pem) = keys.public_key_identity pem

-- a trusted key that is no key
abbrev pub is_invalid_key : Ed25519 → Option String → Bool
is_invalid_key keys none = false
is_invalid_key keys (some pem) = elim (keys.public_key_identity pem) [
  | none ↦ true
  | some der ↦ false
]

module _ {F : Type 0} ⦃fl : Float F⦄ where
  -- `v.get(k, default)`
  unfoldable pub get_from : String → Value F → Value F → Result (Value F)
  unfolding get_or
  get_from k v (dict fs) = ok (get_or k v fs)
  get_from k v _ = err attribute_error

  -- what `.get` is called on
  unfoldable pub fields_of : Value F → Result (Fields F)
  fields_of (dict fs) = ok fs
  fields_of _ = err attribute_error

  module _ (keys : Ed25519) where
    -- `_public_key_identity`
    abbrev pub identity_of : Value F → Option String
    identity_of (str pem) = keys.public_key_identity pem
    identity_of _ = none

    -- `verify_signature`, which is false for all but texts
    abbrev pub verify_signature : Value F → List ℕ → Value F → Bool
    verify_signature (str pem) payload (str signature) = keys.verify_text pem payload signature
    verify_signature _ payload _ = false

    unfoldable pub is_signed_by : Value F → Value F → List ℕ → Bool
    unfolding truthy
    is_signed_by pem signature payload =
        (truthy pem && truthy signature) && verify_signature pem payload signature

    -- the three tests, on what has been read
    abbrev pub checks_of :
        Option String → Value F → Value F → List ℕ → Summary F → Value F → Fields F → Checks
    checks_of trusted pem signature payload summary counts declared = record {
      is_signed = is_signed_by pem signature payload;
      trust = some (
          is_signed_by pem signature payload
          && same_key (trusted_identity keys trusted) (identity_of pem));
      trusted_key_matches = same_key (trusted_identity keys trusted) (identity_of pem);
      is_consistent =
          value_eq (or_else counts (dict end)) (dict (event_counts_of summary))
          && value_eq (dict (chain_core declared)) (dict (chain_of summary));
    }

    -- the branch of a manifest that is there
    unfoldable pub check_manifest : Option String → List (Fields F) → Value F → Result Checks
    check_manifest trusted events null = ok (record {
      is_signed = false;
      trust = none;
      trusted_key_matches = false;
      is_consistent = false;
    })
    check_manifest trusted events manifest = do
      signing ← get_from "signing" null manifest
      pem ← get_from "public_key_pem" (str "") (or_else signing (dict end))
      signature ← get_from "signature" (str "") (or_else signing (dict end))
      scope ← get_from "scope" (str "") manifest
      range ← get_from "range" (dict end) manifest
      summary ← summarize_events events
      from_ts ← get_from "from" (str "") (or_else range (dict end))
      to_ts ← get_from "to" (str "") (or_else range (dict end))
      payload ← signing_payload scope from_ts to_ts (event_counts_of summary) (chain_of summary)
      declared_counts ← get_from "event_counts" null manifest
      declared_chain ← get_from "chain" null manifest
      declared ← fields_of (or_else declared_chain (dict end))
      ok (checks_of trusted pem signature payload summary declared_counts declared)
