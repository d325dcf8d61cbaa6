-- ===== src/Audit/Bundle/Directory.antt =====
-- tessera/audit/verifier.py: `verify_bundle_dir` itself. The parent has the tests on the manifest.
use cloudmorph_tessera.Prelude.{
  ℕ, String, false, Option, none, some, List, string_eq, if◌then◌else◌,
}
use cloudmorph_tessera.Python.Float.{Float}
use cloudmorph_tessera.Python.Result.{Result, ok, ◌>>=◌}
use cloudmorph_tessera.Python.Value.{Value, Fields, null}
use cloudmorph_tessera.Audit.Verifier.{
  trusted_key_invalid, missing_events_file, signature_missing, WalkResult, walk_chain,
}
use cloudmorph_tessera.Audit.Bundle.{
  Ed25519, BundleResult, Checks, failure_of, unwalked, failed, concluded, first_fault,
  is_invalid_key, check_manifest,
}

module _ {F : Type 0} where
  -- a manifest that cannot be read is taken for none
  abbrev pub manifest_of : Option (Value F) → Value F
  manifest_of none = null
  manifest_of (some v) = v

  -- the result without a manifest
  abbrev pub unsigned : Option String → WalkResult F → BundleResult F
  unsigned none walk = record {
    walk = walk;
    signature_ok = none;
    signature_trusted = none;
    manifest_consistent = none;
  }
  unsigned (some pem) walk = record {
    walk = failed signature_missing walk;
    signature_ok = none;
    signature_trusted = some false;
    manifest_consistent = none;
  }

  -- the result with one
  abbrev pub judged : Option String → WalkResult F → Checks → BundleResult F
  judged trusted walk c = record {
    walk = concluded (first_fault trusted c) walk;
    signature_ok = some c.is_signed;
    signature_trusted = c.trust;
    manifest_consistent = some c.is_consistent;
  }

  -- a trusted key that is no key
  abbrev pub wrong_key : BundleResult F
  wrong_key = record {
    walk = unwalked trusted_key_invalid;
    signature_ok = none;
    signature_trusted = some false;
    manifest_consistent = none;
  }

module _ {F : Type 0} ⦃fl : Float F⦄ (keys : Ed25519) (sha256 : List ℕ → String) where
  -- once there are events
  unfoldable pub verify_events :
      Option String → List (Fields F) → Option (Option (Value F)) → Result (BundleResult F)
  unfolding walk_chain check_manifest concluded first_fault
  verify_events trusted events none =
      walk_chain sha256 events >>= λ walk. ok (unsigned trusted walk)
  verify_events trusted events (some read) = walk_chain sha256 events >>= λ walk.
      check_manifest keys trusted events (manifest_of read) >>= λ c. ok (judged trusted walk c)

  abbrev pub opened :
      Option String → Option (List (Fields F)) → Option (Option (Value F)) → Result (BundleResult F)
  opened trusted none manifest = ok (record {
    walk = unwalked missing_events_file;
    signature_ok = none;
    signature_trusted = none;
    manifest_consistent = none;
  })
  opened trusted (some events) manifest = verify_events trusted events manifest

  unfoldable pub verify_bundle_dir :
      Option String → Option (List (Fields F)) → Option (Option (Value F)) → Result (BundleResult F)
  unfolding verify_events failure_of
  verify_bundle_dir trusted events manifest =
      if is_invalid_key keys trusted then ok wrong_key else opened trusted events manifest
