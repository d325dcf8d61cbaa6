-- ===== src/Audit/Verifier.antt =====
-- tessera/audit/verifier.py: the walk over a chain of events.
pub mod Sound
pub mod Produced
use cloudmorph_tessera.Prelude.{
  ℕ, suc, String, Bool, true, false, Option, none, some, List, [], ◌∷◌, if◌then◌else◌,
}
use cloudmorph_tessera.Python.Float.{Float}
use cloudmorph_tessera.Python.Result.{Result, ok, ◌>>=◌}
use cloudmorph_tessera.Python.Value.{Value, Fields, null, str, get_or}
use cloudmorph_tessera.Audit.Chain.{verify_pair, verify_event_hash}

pub data Kind : Type 0 where
  hash_mismatch chain_break trusted_key_invalid missing_events_file : Kind
  signature_invalid signer_untrusted manifest_mismatch signature_missing : Kind

-- the entry `first_failure`
pub record Failure (F : Type 0) : Type 0 where
  pub seq : Option ℕ
  pub event_id : Value F
  pub kind : Kind
  pub expected_event_hash : Value F
  pub computed_event_hash : Value F

pub record WalkResult (F : Type 0) : Type 0 where
  pub events_checked : ℕ
  pub first_event_at : Value F
  pub last_event_at : Value F
  pub is_ok : Bool
  pub first_failure : Option (Failure F)

-- `x if first is None else first`
unfoldable pub first_seen : {F : Type 0} → Value F → Value F → Value F
first_seen null x = x
first_seen v x = v

module _ {F : Type 0} ⦃fl : Float F⦄ where
  unfoldable pub mismatch : ℕ → Fields F → Failure F
  mismatch seq event = record {
    seq = some seq;
    event_id = get_or "eventId" (str "") event;
    kind = hash_mismatch;
    expected_event_hash = get_or "eventHash" (str "") event;
    computed_event_hash = str "";
  }

  unfoldable pub broken : ℕ → Fields F → Fields F → Failure F
  broken seq prev_event event = record {
    seq = some seq;
    event_id = get_or "eventId" (str "") event;
    kind = chain_break;
    expected_event_hash = get_or "eventHash" (str "") prev_event;
    computed_event_hash = get_or "prevEventHash" (str "") event;
  }

  -- the test on the link, if there is a previous event
  unfoldable pub link_failure : ℕ → Option (Fields F) → Fields F → Option (Failure F)
  link_failure seq none event = none
  link_failure seq (some prev_event) event =
      if verify_pair prev_event event then none else some (broken seq prev_event event)

module _ {F : Type 0} ⦃fl : Float F⦄ (sha256 : List ℕ → String) where
  -- the two tests of a round, the hash first
  unfoldable pub check : ℕ → Option (Fields F) → Fields F → Result (Option (Failure F))
  check seq prev event = do
    intact ← verify_event_hash sha256 event
    ok (if intact then link_failure seq prev event else some (mismatch seq event))

  -- The loop: `n` events are checked, and the sequence number of the next is `n + 1`.
  unfoldable pub walk_from :
      ℕ → Value F → Value F → Option (Fields F) → List (Fields F) → Result (WalkResult F)
  walk_from n first last prev [] = ok (record {
    events_checked = n;
    first_event_at = first;
    last_event_at = last;
    is_ok = true;
    first_failure = none;
  })
  walk_from n first last prev (event ∷ events) =
      let occurred_at = get_or "occurredAt" null event in
      let rest = walk_from (suc n) (first_seen first occurred_at) occurred_at (some event) events in
      check (suc n) prev event >>= λ failure. elim failure [
        | none ↦ rest
        | some f ↦ ok (record {
          events_checked = suc n;
          first_event_at = first_seen first occurred_at;
          last_event_at = occurred_at;
          is_ok = false;
          first_failure = some f;
        })
      ]

  unfoldable pub walk_chain : List (Fields F) → Result (WalkResult F)
  walk_chain events = walk_from 0 null null none events

  -- the scope beside the result; the sink's `iter_events` is an argument
  unfoldable pub verify_chain : (String → List (Fields F)) → String → Result (String × WalkResult F)
  verify_chain iter_events scope = walk_chain (iter_events scope) >>= λ result. ok (scope, result)
