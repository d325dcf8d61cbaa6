-- ===== src/Audit/Emitter/Trail.antt =====
-- The emitter, the chain, the SQLite sink and the verifier together: what is emitted verifies.
use cloudmorph_tessera.Prelude.{
  ℕ, ◌≡◌, refl, sym, ap, ◌∙◌, String, true, false, Option, some, List, [], ◌∷◌, ◌++◌, length, ◌==◌,
  string_eq,
}
use mathlib.Core.Path.{subst}
use cloudmorph_tessera.Python.Float.{Float}
use cloudmorph_tessera.Python.Result.{ok, >>=-eq-ok, ok-injective}
use cloudmorph_tessera.Python.Value.{Value, Fields, str}
use cloudmorph_tessera.Audit.Verifier.{WalkResult, verify_chain}
use cloudmorph_tessera.Audit.Verifier.Produced.{rows, stamp_all_verifies}
use cloudmorph_tessera.Audit.Sqlite.{Table, iter_events, store}
use cloudmorph_tessera.Audit.Sqlite.Table.{IsTable}
use cloudmorph_tessera.Audit.Emitter.{Sink, AuditEmitter, EmitCall, deliver, emit_internal}
use cloudmorph_tessera.Audit.Emitter.Isolated.{AllSpare, ReportSpares, deliver_isolated}
use cloudmorph_tessera.Audit.Emitter.Logged.{kept_or_stored, store_all, store_all-rows}
use cloudmorph_tessera.Audit.Emitter.Stored.{
  events_of, events_of-AllUnique, emit_all, Emitted, emit_internal-Emitted, emit_all_stamps,
  stamp_all-AllNamed,
}

module _ {F : Type 0} where
  pub empty-IsTable : IsTable {F = F} []
  empty-IsTable = record { distinct = tt; consecutive = λ scope. tt }

module _ {F S : Type 0} (bind : Value F → Option (Option String)) (view : S → Table F) where
  -- a sink that keeps the table in a part of the world
  abbrev pub IsSqlite : Sink F S → Type 0
  IsSqlite sink =
      (event : Fields F) (w : S) → view (sink.emit event w).1 ≡ kept_or_stored bind event (view w)

  -- one such sink, and others that leave the table alone, as the callback does
  pub record HasSqlite (em : AuditEmitter F S) : Type 0 where
    pub before : List (Sink F S)
    pub sink : Sink F S
    pub after : List (Sink F S)
    pub fan_out : em.sinks ≡ before ++ (sink ∷ after)
    pub before_spare : AllSpare view before
    pub after_spare : AllSpare view after
    pub report_spares : ReportSpares view em.on_sink_failure
    pub stores : IsSqlite sink

  store_all-cons_inv :
      (event : Fields F) (events : List (Fields F)) (table end : Table F)
      → store_all bind (event ∷ events) table ≡ ok end
      → store_all bind events (kept_or_stored bind event table) ≡ ok end
  unfolding store_all kept_or_stored
  store_all-cons_inv event events table end p =
      let (mid, p1, q) = >>=-eq-ok (store bind event table) _ p in rw (p1, kept_or_stored) q

module _ {F S : Type 0} ⦃fl : Float F⦄ (sha256 : List ℕ → String)
    (bind : Value F → Option (Option String)) (view : S → Table F) where
  Emitted-HasSqlite :
      (em em' : AuditEmitter F S) (event stamped : Fields F) (w w' : S)
      → HasSqlite bind view em
      → Emitted sha256 em event stamped w em' w'
      → HasSqlite bind view em' × (view w' ≡ kept_or_stored bind stamped (view w))
  Emitted-HasSqlite em em' event stamped w w' h e = (
    record {
      before = h.before;
      sink = h.sink;
      after = h.after;
      fan_out = e.sinks ∙ h.fan_out;
      before_spare = h.before_spare;
      after_spare = h.after_spare;
      report_spares = subst (ReportSpares view) (sym e.report) h.report_spares;
      stores = h.stores;
    },
    ap view (e.world ∙ ap (λ sinks. deliver em.on_sink_failure sinks stamped w) h.fan_out)
        ∙ deliver_isolated view (kept_or_stored bind) em.on_sink_failure h.before h.sink h.after
            stamped w h.report_spares h.before_spare h.after_spare h.stores,
  )

  emit_all-view :
      (em em' : AuditEmitter F S) (calls : List (EmitCall F × String)) (w w' : S)
      (stamped : List (Fields F)) (table : Table F)
      → HasSqlite bind view em
      → emit_all sha256 em calls w ≡ ok (stamped, em', w')
      → store_all bind stamped (view w) ≡ ok table
      → view w' ≡ table
  unfolding emit_all
  emit_all-view em em' [] w w' stamped table h p s =
      let made = ok-injective p in
      ap (λ (o : List (Fields F) × AuditEmitter F S × S). view o.2) (sym made)
      ∙ ok-injective (
          unfold store_all in
          subst
            (λ (o : List (Fields F) × AuditEmitter F S × S). store_all bind o.0 (view w) ≡ ok table)
            (sym made) s)
  emit_all-view em em' ((call, now) ∷ calls) w w' stamped table h p s =
      let (first, p1, q) = >>=-eq-ok (emit_internal sha256 em call now w) _ p in
      let (rest, p2, q2) = >>=-eq-ok (emit_all sha256 first.1 calls first.2) _ q in
      let made = ok-injective q2 in
      let e = emit_internal-Emitted sha256 em first.1 call now w first.2 first.0 p1 in
      let (h', seen) = Emitted-HasSqlite em first.1 _ first.0 w first.2 h e in
      let all_stored : store_all bind (first.0 ∷ rest.0) (view w) ≡ ok table =
        subst
          (λ (o : List (Fields F) × AuditEmitter F S × S). store_all bind o.0 (view w) ≡ ok table)
          (sym made) s in
      ap (λ (o : List (Fields F) × AuditEmitter F S × S). view o.2) (sym made)
      ∙ emit_all-view first.1 rest.1 calls first.2 rest.2 rest.0 table h' p2 (
          ap (store_all bind rest.0) seen
          ∙ store_all-cons_inv bind view first.0 rest.0 (view w) table all_stored)

  -- Where no hash is the empty text and a text is stored as it is: let one sink of the emitter be
  -- the SQLite sink with an empty table, which the other sinks and the callback leave alone. Once
  -- all calls of a run have returned, and the table has accepted their events, it holds those
  -- events whatever the other sinks have raised, and `verify_chain` passes for every tenant, with
  -- all its events counted.
  pub emit_all_verifies :
      (nonempty : (bytes : List ℕ) → (sha256 bytes == "") ≡ false)
      (binds : (s : String) → bind (str s) ≡ some (some s)) (em em' : AuditEmitter F S)
      (calls : List (EmitCall F × String)) (w w' : S) (stamped : List (Fields F)) (table : Table F)
      (t : String)
      → HasSqlite bind view em
      → view w ≡ []
      → emit_all sha256 em calls w ≡ ok (stamped, em', w')
      → store_all bind stamped [] ≡ ok table
      → (view w' ≡ table)
        × (r : WalkResult F) × (verify_chain sha256 (λ scope. iter_events (some scope) (view w')) t
            ≡ ok (t, r))
        × (r.is_ok ≡ true)
        × (r.events_checked ≡ length (rows t stamped))
  unfolding verify_chain iter_events
  emit_all_verifies nonempty binds em em' calls w w' stamped table t h clean p s =
      let stamps = emit_all_stamps sha256 em em' calls w w' stamped p in
      let unique = events_of-AllUnique em.tenant_id calls in
      let (r, passes, sound, checked) =
        stamp_all_verifies sha256 nonempty t em.hash_chain (events_of em.tenant_id calls) stamped
          em'.hash_chain unique stamps in
      let seen : view w' ≡ table =
        emit_all-view em em' calls w w' stamped table h p (ap (store_all bind stamped) clean ∙ s) in
      let log : iter_events (some t) table ≡ rows t stamped =
        store_all-rows bind binds t stamped [] table
          (stamp_all-AllNamed sha256 nonempty em.hash_chain em'.hash_chain
            (events_of em.tenant_id calls) stamped unique stamps)
          empty-IsTable s in
      (seen, r, rw seen (rw log (rw passes refl)), sound, checked)
