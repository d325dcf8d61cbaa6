-- ===== src/Audit/Emitter.antt =====
-- tessera/audit/emitter.py: `AuditEmitter`. A sink is what its methods do to the outside world `S`,
-- with the exception that it raises. The check of the schema under TESSERA_DEBUG only logs.
pub mod Isolated
pub mod Logged
pub mod Stored
pub mod Trail
use cloudmorph_tessera.Prelude.{
  String, Option, none, some, List, [], ◌∷◌, ◌==◌, string_eq, if◌then◌else◌, ℕ,
}
use cloudmorph_tessera.Python.Float.{Float}
use cloudmorph_tessera.Python.Result.{Exception, Result, ok, err, value_error, ◌>>=◌}
use cloudmorph_tessera.Python.Value.{Value, Fields, str, dict, end, field, put}
use cloudmorph_tessera.Audit.Chain.{HashChain, stamp}

-- `tessera/audit/sinks/base.py`; whatever `close` raises is dropped
pub record Sink (F S : Type 0) : Type 0 where
  pub name : String
  pub emit : Fields F → S → Option Exception × S
  pub close : S → S

pub record AuditEmitter (F S : Type 0) : Type 0 where
  pub tenant_id : String
  pub sinks : List (Sink F S)
  pub hash_chain : HashChain
  pub on_sink_failure : Option (String → Exception → S → S)

-- the arguments of `_emit_internal`
pub record EmitCall (F : Type 0) : Type 0 where
  pub event_id : String
  pub event_type : String
  pub payload : Option (Fields F)
  pub session_id : Option String
  pub actor_id : Option String
  pub tenant_id : Option String
  pub pricing_snapshot_id : Option String

-- `a or b` of texts
abbrev pub text_or : String → Option String → String
text_or d none = d
text_or d (some s) = if s == "" then d else s

-- the callback, whose own exceptions are dropped
unfoldable pub reported :
    {S : Type 0} → Option (String → Exception → S → S) → String → Option Exception → S → S
reported report name none w = w
reported none name (some x) w = w
reported (some callback) name (some x) w = callback name x w

module _ {F : Type 0} where
  -- `payload or {}`
  abbrev pub payload_or_empty : Option (Fields F) → Value F
  payload_or_empty none = dict end
  payload_or_empty (some fs) = dict fs

  -- `if s: event[k] = s`
  unfoldable pub put_text : String → Option String → Fields F → Fields F
  put_text k none event = event
  put_text k (some s) event = if s == "" then event else put k (str s) event

  -- `if s is not None: event[k] = s`
  unfoldable pub put_given : String → Option String → Fields F → Fields F
  put_given k none event = event
  put_given k (some s) event = put k (str s) event

  -- the event before it is stamped, at the time `now`
  unfoldable pub event_of : String → EmitCall F → String → Fields F
  unfolding put put_text put_given
  event_of tenant_id call now = put_given "pricingSnapshotId" call.pricing_snapshot_id (
      put_text "actorId" call.actor_id (
        put_text "sessionId" call.session_id (
          field "schemaVersion" (str "v0.1") (
            field "eventId" (str call.event_id) (
              field "tenantId" (str (text_or tenant_id call.tenant_id)) (
                field "eventType" (str call.event_type) (
                  field "payload" (payload_or_empty call.payload)
                    (field "occurredAt" (str now) end))))))))

module _ {F S : Type 0} where
  -- the checks of `__init__`
  unfoldable pub new_emitter :
      String
      → List (Sink F S)
      → HashChain
      → Option (String → Exception → S → S)
      → Result (AuditEmitter F S)
  new_emitter tenant_id [] chain report = err value_error
  new_emitter tenant_id (sink ∷ sinks) chain report =
      if tenant_id == ""
      then err value_error
      else ok (record {
        tenant_id = tenant_id;
        sinks = sink ∷ sinks;
        hash_chain = chain;
        on_sink_failure = report;
      })

  -- the loop over the sinks
  unfoldable pub deliver : Option (String → Exception → S → S) → List (Sink F S) → Fields F → S → S
  unfolding reported
  deliver report [] event w = w
  deliver report (sink ∷ sinks) event w =
      deliver report sinks event
        (reported report sink.name (sink.emit event w).0 (sink.emit event w).1)

  -- `AuditEmitter.close`
  unfoldable pub close_all : List (Sink F S) → S → S
  close_all [] w = w
  close_all (sink ∷ sinks) w = close_all sinks (sink.close w)

module _ {F S : Type 0} ⦃fl : Float F⦄ (sha256 : List ℕ → String) where
  -- `_emit_internal`, which `emit` and `emit_with_id` call
  unfoldable pub emit_internal :
      AuditEmitter F S → EmitCall F → String → S → Result (Fields F × AuditEmitter F S × S)
  unfolding event_of stamp deliver
  emit_internal em call now w = do
    (stamped, chain) ← stamp sha256 em.hash_chain (event_of em.tenant_id call now)
    ok (
      stamped,
      record {
        tenant_id = em.tenant_id;
        sinks = em.sinks;
        hash_chain = chain;
        on_sink_failure = em.on_sink_failure;
      },
      deliver em.on_sink_failure em.sinks stamped w,
    )
