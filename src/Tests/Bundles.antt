-- ===== src/Tests/Bundles.antt =====
-- A bundle of one event, its manifest and a trusted key.
use cloudmorph_tessera.Prelude.{
  ℕ, String, Bool, true, false, none, some, [], ◌∷◌, ◌==◌, string_eq, if◌then◌else◌, pos,
}
use cloudmorph_tessera.Python.Result.{Result, ok, err}
use cloudmorph_tessera.Python.Value.{Fields, str, int, dict, end, field, get_or}
use cloudmorph_tessera.Audit.Chain.{new_chain, stamp}
use cloudmorph_tessera.Audit.Bundle.{Ed25519, BundleResult}
use cloudmorph_tessera.Audit.Bundle.Directory.{wrong_key, verify_bundle_dir}
use cloudmorph_tessera.Audit.Bundle.Accepted.{Accepted}
use cloudmorph_tessera.Tests.Fixtures.{fl, sha256, event}

abbrev keys : Ed25519
keys = record {
  public_key_identity = λ pem. if pem == "k" then some "der" else none;
  verify_text = λ pem payload signature. signature == "s";
}

abbrev value : {A : Type 0} → A → Result A → A
value a (ok x) = x
value a (err x) = a

abbrev is_ok : {A : Type 0} → Result A → Bool
is_ok (ok x) = true
is_ok (err x) = false

abbrev stamped : Fields ℕ
stamped = (value (end, new_chain) (stamp sha256 new_chain (event "a" "1"))).0

abbrev count : String → ℕ → Fields ℕ → Fields ℕ
count k n = field k (int (pos n))

abbrev manifest : Fields ℕ
manifest = field "scope" (str "a") (
    field "signing" (dict (field "public_key_pem" (str "k") (field "signature" (str "s") end))) (
      field "event_counts"
        (dict (
          count "total" 1 (
            count "allow" 0
              (count "block" 0 (count "approval" 0 (count "log_only" 0 (count "other" 1 end)))))))
        (field "chain"
          (dict (
            field "first_event_id" (str "1") (
              field "first_event_hash" (get_or "eventHash" (str "") stamped) (
                field "last_event_id" (str "1")
                  (field "last_event_hash" (get_or "eventHash" (str "") stamped) end)))))
          end)))

abbrev result : BundleResult ℕ
result =
    value wrong_key
      (verify_bundle_dir keys sha256 (some "k") (some (stamped ∷ [])) (some (some (dict manifest))))
