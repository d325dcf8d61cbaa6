-- ===== src/Audit/Bundle/Signed.antt =====
-- What a manifest without a fault shows.
use cloudmorph_tessera.Prelude.{
  ℕ, ◌≡◌, refl, sym, ap, ◌∙◌, String, true, false, ◌&&◌, Option, none, some, List, and_split,
  string_eq, arith,
}
use cloudmorph_tessera.Python.Float.{Float}
use cloudmorph_tessera.Python.Result.{ok, >>=-eq-ok, ok-injective}
use cloudmorph_tessera.Python.Value.{
  Value, Fields, null, bool, int, float, str, list, dict, end, truthy, value_eq,
}
use cloudmorph_tessera.Audit.Export.{
  Summary, or_else, summarize_events, event_counts_of, chain_of, chain_core, signing_payload,
}
use cloudmorph_tessera.Audit.Bundle.{
  Ed25519, Checks, first_fault, same_key, trusted_identity, get_from, fields_of, identity_of,
  verify_signature, is_signed_by, checks_of, check_manifest,
}
use cloudmorph_tessera.Audit.Bundle.Directory.{manifest_of}

abbrev IsMatched : Option String → Checks → Type 0
IsMatched none c = Unit
IsMatched (some trusted) c = c.trusted_key_matches ≡ true

-- No fault: all three tests have passed.
first_fault-none :
    (trusted : Option String) (c : Checks)
    → first_fault trusted c ≡ none
    → (c.is_signed ≡ true) × IsMatched trusted c × (c.is_consistent ≡ true)
unfolding first_fault
first_fault-none none c h = (ground arith, tt, ground arith)
first_fault-none (some trusted) c h = (ground arith, ground arith, ground arith)

module _ {F : Type 0} ⦃fl : Float F⦄ (keys : Ed25519) where
  -- the key of the manifest is the trusted one
  abbrev pub IsTrusted : Option String → Value F → Type 0
  IsTrusted none pem = Unit
  IsTrusted (some trusted) pem =
      same_key (keys.public_key_identity trusted) (identity_of keys pem) ≡ true

  -- The manifest has a signature of what the events themselves show, by a key that is trusted, and its
  -- own counts and chain ends are those of the events.
  pub record Signed (trusted : Option String) (events : List (Fields F)) (manifest : Value F)
      : Type 0 where
    pub signing : Value F
    pub pem : Value F
    pub signature : Value F
    pub scope : Value F
    pub range : Value F
    pub from_ts : Value F
    pub to_ts : Value F
    pub summary : Summary F
    pub payload : List ℕ
    pub counts : Value F
    pub chain : Value F
    pub declared : Fields F
    pub signing_of : get_from "signing" null manifest ≡ ok signing
    pub pem_of : get_from "public_key_pem" (str "") (or_else signing (dict end)) ≡ ok pem
    pub signature_of : get_from "signature" (str "") (or_else signing (dict end)) ≡ ok signature
    pub range_of : get_from "range" (dict end) manifest ≡ ok range
    pub from_of : get_from "from" (str "") (or_else range (dict end)) ≡ ok from_ts
    pub to_of : get_from "to" (str "") (or_else range (dict end)) ≡ ok to_ts
    pub scoped : get_from "scope" (str "") manifest ≡ ok scope
    pub summarizes : summarize_events events ≡ ok summary
    pub encodes :
        signing_payload scope from_ts to_ts (event_counts_of summary) (chain_of summary)
        ≡ ok payload
    pub verified : verify_signature keys pem payload signature ≡ true
    pub trusts : IsTrusted trusted pem
    pub counts_of : get_from "event_counts" null manifest ≡ ok counts
    pub same_counts : value_eq (or_else counts (dict end)) (dict (event_counts_of summary)) ≡ true
    pub chain_ends : get_from "chain" null manifest ≡ ok chain
    pub declares : fields_of (or_else chain (dict end)) ≡ ok declared
    pub same_chain : value_eq (dict (chain_core declared)) (dict (chain_of summary)) ≡ true

  IsTrusted-IsMatched :
      (trusted : Option String) (pem : Value F) (c : Checks)
      → c.trusted_key_matches ≡ same_key (trusted_identity keys trusted) (identity_of keys pem)
      → IsMatched trusted c
      → IsTrusted trusted pem
  IsTrusted-IsMatched none pem c e m = tt
  IsTrusted-IsMatched (some trusted) pem c e m = sym e ∙ m

  -- the last step, on the values that the others have read
  faultless-Signed :
      (trusted : Option String) (events : List (Fields F)) (manifest : Value F)
      (signing pem signature scope range from_ts to_ts counts chain : Value F) (summary : Summary F)
      (payload : List ℕ) (declared : Fields F) (c : Checks)
      → get_from "signing" null manifest ≡ ok signing
      → get_from "public_key_pem" (str "") (or_else signing (dict end)) ≡ ok pem
      → get_from "signature" (str "") (or_else signing (dict end)) ≡ ok signature
      → get_from "range" (dict end) manifest ≡ ok range
      → get_from "from" (str "") (or_else range (dict end)) ≡ ok from_ts
      → get_from "to" (str "") (or_else range (dict end)) ≡ ok to_ts
      → get_from "scope" (str "") manifest ≡ ok scope
      → summarize_events events ≡ ok summary
      → signing_payload scope from_ts to_ts (event_counts_of summary) (chain_of summary)
        ≡ ok payload
      → get_from "event_counts" null manifest ≡ ok counts
      → get_from "chain" null manifest ≡ ok chain
      → fields_of (or_else chain (dict end)) ≡ ok declared
      → checks_of keys trusted pem signature payload summary counts declared ≡ c
      → first_fault trusted c ≡ none
      → Signed trusted events manifest
  unfolding is_signed_by
  faultless-Signed trusted events manifest signing pem signature scope range from_ts to_ts counts
        chain summary payload declared c p0 p1 p2 p4 p6 p7 p3 p5 p8 p9 p10 p11 made faultless =
      let (signed, matched, consistent) = first_fault-none trusted c faultless in
      let (given, verified) =
        and_split (truthy pem && truthy signature) _
          (ap (λ (k : Checks). k.is_signed) made ∙ signed) in
      let (same_counts, same_chain) =
        and_split (value_eq (or_else counts (dict end)) (dict (event_counts_of summary))) _
          (ap (λ (k : Checks). k.is_consistent) made ∙ consistent) in
      record {
        signing = signing;
        pem = pem;
        signature = signature;
        scope = scope;
        range = range;
        from_ts = from_ts;
        to_ts = to_ts;
        summary = summary;
        payload = payload;
        counts = counts;
        chain = chain;
        declared = declared;
        signing_of = p0;
        pem_of = p1;
        signature_of = p2;
        range_of = p4;
        from_of = p6;
        to_of = p7;
        scoped = p3;
        summarizes = p5;
        encodes = p8;
        verified = verified;
        trusts =
            IsTrusted-IsMatched trusted pem c
              (sym (ap (λ (k : Checks). k.trusted_key_matches) made)) matched;
        counts_of = p9;
        same_counts = same_counts;
        chain_ends = p10;
        declares = p11;
        same_chain = same_chain;
      }

  pub check_manifest-Signed :
      (trusted : Option String) (events : List (Fields F)) (fs : Fields F) (c : Checks)
      → check_manifest keys trusted events (dict fs) ≡ ok c
      → first_fault trusted c ≡ none
      → Signed trusted events (dict fs)
  unfolding check_manifest
  check_manifest-Signed trusted events fs c p faultless =
      let (signing, p0, q0) = >>=-eq-ok (get_from "signing" null (dict fs)) _ p in
      let (pem, p1, q1) =
        >>=-eq-ok (get_from "public_key_pem" (str "") (or_else signing (dict end))) _ q0 in
      let (signature, p2, q2) =
        >>=-eq-ok (get_from "signature" (str "") (or_else signing (dict end))) _ q1 in
      let (scope, p3, q3) = >>=-eq-ok (get_from "scope" (str "") (dict fs)) _ q2 in
      let (range, p4, q4) = >>=-eq-ok (get_from "range" (dict end) (dict fs)) _ q3 in
      let (summary, p5, q5) = >>=-eq-ok (summarize_events events) _ q4 in
      let (from_ts, p6, q6) =
        >>=-eq-ok (get_from "from" (str "") (or_else range (dict end))) _ q5 in
      let (to_ts, p7, q7) = >>=-eq-ok (get_from "to" (str "") (or_else range (dict end))) _ q6 in
      let (payload, p8, q8) =
        >>=-eq-ok (signing_payload scope from_ts to_ts (event_counts_of summary) (chain_of summary))
          _ q7 in
      let (counts, p9, q9) = >>=-eq-ok (get_from "event_counts" null (dict fs)) _ q8 in
      let (chain, p10, q10) = >>=-eq-ok (get_from "chain" null (dict fs)) _ q9 in
      let (declared, p11, q11) = >>=-eq-ok (fields_of (or_else chain (dict end))) _ q10 in
      faultless-Signed trusted events (dict fs) signing pem signature scope range from_ts to_ts
        counts chain summary payload declared c p0 p1 p2 p4 p6 p7 p3 p5 p8 p9 p10 p11
        (ok-injective q11) faultless

unsigned_fault :
    (trusted : Option String) (c : Checks) → c.is_signed ≡ false → first_fault trusted c ≡ none → ⊥
unsigned_fault trusted c e h = cc (e, (first_fault-none trusted c h).0)

module _ {F : Type 0} ⦃fl : Float F⦄ (keys : Ed25519) where
  pub check_manifest-dict :
      (trusted : Option String) (events : List (Fields F)) (read : Option (Value F)) (c : Checks)
      → check_manifest keys trusted events (manifest_of read) ≡ ok c
      → first_fault trusted c ≡ none
      → (fs : Fields F) × (read ≡ some (dict fs))
  unfolding check_manifest get_from
  check_manifest-dict trusted events none c p h =
      absurd (unsigned_fault trusted c (sym (ap (λ (k : Checks). k.is_signed) (ok-injective p))) h)
  check_manifest-dict trusted events (some null) c p h =
      absurd (unsigned_fault trusted c (sym (ap (λ (k : Checks). k.is_signed) (ok-injective p))) h)
  check_manifest-dict trusted events (some (dict fs)) c p h = (fs, refl)
  check_manifest-dict trusted events (some (bool b)) c p h = cc
  check_manifest-dict trusted events (some (int n)) c p h = cc
  check_manifest-dict trusted events (some (float x)) c p h = cc
  check_manifest-dict trusted events (some (str s)) c p h = cc
  check_manifest-dict trusted events (some (list vs)) c p h = cc
