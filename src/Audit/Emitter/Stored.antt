-- ===== src/Audit/Emitter/Stored.antt =====
-- The emitter, the chain, the SQLite sink and the verifier together.
use cloudmorph_tessera.Prelude.{
  ℕ, ◌≡◌, refl, sym, ap, ◌∙◌, String, false, Option, none, some, List, [], ◌∷◌, ◌==◌, string_eq,
  Bool-cases, inl, inr,
}
use mathlib.Core.Path.{subst}
use cloudmorph_tessera.Python.Float.{Float}
use cloudmorph_tessera.Python.Result.{Result, ok, ◌>>=◌, >>=-eq-ok, ok-injective}
use cloudmorph_tessera.Python.Value.{Fields, str, get, IsUnique}
use cloudmorph_tessera.Python.Value.Laws.{put-IsUnique}
use cloudmorph_tessera.Audit.Chain.{HashChain, stamp}
use cloudmorph_tessera.Audit.Chain.Stamp.{stamp-Stamped}
use cloudmorph_tessera.Audit.Verifier.Produced.{AllUnique, tenant_of_inv, stamp_all}
use cloudmorph_tessera.Audit.Emitter.{
  AuditEmitter, EmitCall, put_text, put_given, event_of, deliver, emit_internal,
}
use cloudmorph_tessera.Audit.Emitter.Logged.{AllNamed}

module _ {F : Type 0} where
  put_text-IsUnique :
      (k : String) (o : Option String) (event : Fields F)
      → IsUnique event
      → IsUnique (put_text k o event)
  unfolding put_text
  put_text-IsUnique k none event u = u
  put_text-IsUnique k (some s) event u = elim (Bool-cases (s == "")) [
    | inl e ↦ rw e u
    | inr e ↦ rw e (put-IsUnique k (str s) event u)
  ]

  put_given-IsUnique :
      (k : String) (o : Option String) (event : Fields F)
      → IsUnique event
      → IsUnique (put_given k o event)
  unfolding put_given
  put_given-IsUnique k none event u = u
  put_given-IsUnique k (some s) event u = put-IsUnique k (str s) event u

  event_of-IsUnique :
      (tenant_id : String) (call : EmitCall F) (now : String)
      → IsUnique (event_of tenant_id call now)
  unfolding event_of get
  event_of-IsUnique tenant_id call now =
      put_given-IsUnique "pricingSnapshotId" call.pricing_snapshot_id _ (
        put_text-IsUnique "actorId" call.actor_id _ (
          put_text-IsUnique "sessionId" call.session_id _
            (refl, (refl, (refl, (refl, (refl, (refl, tt))))))))

  -- the events of a run, before they are stamped
  abbrev pub events_of : String → List (EmitCall F × String) → List (Fields F)
  events_of tenant_id [] = []
  events_of tenant_id ((call, now) ∷ calls) =
      event_of tenant_id call now ∷ events_of tenant_id calls

module _ {F : Type 0} ⦃fl : Float F⦄ where
  pub events_of-AllUnique :
      (tenant_id : String) (calls : List (EmitCall F × String))
      → AllUnique (events_of tenant_id calls)
  events_of-AllUnique tenant_id [] = tt
  events_of-AllUnique tenant_id ((call, now) ∷ calls) =
      (event_of-IsUnique tenant_id call now, events_of-AllUnique tenant_id calls)

module _ {F : Type 0} ⦃fl : Float F⦄ (sha256 : List ℕ → String) where
  stamp_all-cons :
      (c c1 c2 : HashChain) (event first : Fields F) (events rest : List (Fields F))
      → stamp sha256 c event ≡ ok (first, c1)
      → stamp_all sha256 c1 events ≡ ok (rest, c2)
      → stamp_all sha256 c (event ∷ events) ≡ ok (first ∷ rest, c2)
  unfolding stamp_all
  stamp_all-cons c c1 c2 event first events rest p q = rw p (rw q refl)

  pub stamp_all-AllNamed :
      (nonempty : (bytes : List ℕ) → (sha256 bytes == "") ≡ false) (c c' : HashChain)
      (events stamped : List (Fields F))
      → AllUnique events
      → stamp_all sha256 c events ≡ ok (stamped, c')
      → AllNamed stamped
  unfolding stamp_all
  stamp_all-AllNamed nonempty c c' [] stamped u p =
      subst (λ (r : List (Fields F) × HashChain). AllNamed r.0) (ok-injective p) tt
  stamp_all-AllNamed nonempty c c' (event ∷ events) stamped (u, us) p =
      let (first, p1, q) = >>=-eq-ok (stamp sha256 c event) _ p in
      let (rest, p2, q2) = >>=-eq-ok (stamp_all sha256 first.1 events) _ q in
      let (owner, po, s) = stamp-Stamped sha256 nonempty c event first.0 first.1 u p1 in
      subst (λ (r : List (Fields F) × HashChain). AllNamed r.0) (ok-injective q2)
        (
          (owner, s.kept "tenantId" ∙ tenant_of_inv _ po),
          stamp_all-AllNamed nonempty first.1 rest.1 events rest.0 us p2,
        )

module _ {F S : Type 0} ⦃fl : Float F⦄ (sha256 : List ℕ → String) where
  -- one call after the other, each with the time that it reads
  unfoldable pub emit_all :
      AuditEmitter F S
      → List (EmitCall F × String)
      → S
      → Result (List (Fields F) × AuditEmitter F S × S)
  emit_all em [] w = ok ([], em, w)
  emit_all em ((call, now) ∷ calls) w = emit_internal sha256 em call now w >>= λ (stamped, em', w').
      emit_all em' calls w' >>= λ (rest, em'', w''). ok (stamped ∷ rest, em'', w'')

  -- What a call that returns has done.
  pub record Emitted (em : AuditEmitter F S) (event stamped : Fields F) (w : S)
      (em' : AuditEmitter F S) (w' : S) : Type 0 where
    pub stamps : stamp sha256 em.hash_chain event ≡ ok (stamped, em'.hash_chain)
    pub tenant : em'.tenant_id ≡ em.tenant_id
    pub sinks : em'.sinks ≡ em.sinks
    pub report : em'.on_sink_failure ≡ em.on_sink_failure
    pub world : w' ≡ deliver em.on_sink_failure em.sinks stamped w

  pub emit_internal-Emitted :
      (em em' : AuditEmitter F S) (call : EmitCall F) (now : String) (w w' : S) (stamped : Fields F)
      → emit_internal sha256 em call now w ≡ ok (stamped, em', w')
      → Emitted em (event_of em.tenant_id call now) stamped w em' w'
  unfolding emit_internal
  emit_internal-Emitted em em' call now w w' stamped p =
      let (r, ps, q) =
        >>=-eq-ok (stamp sha256 em.hash_chain (event_of em.tenant_id call now)) _ p in
      let made = ok-injective q in
      subst
        (λ (o : Fields F × AuditEmitter F S × S).
          Emitted em (event_of em.tenant_id call now) o.0 w o.1 o.2)
        made (record { stamps = ps; tenant = refl; sinks = refl; report = refl; world = refl })

  pub emit_all_stamps :
      (em em' : AuditEmitter F S) (calls : List (EmitCall F × String)) (w w' : S)
      (stamped : List (Fields F))
      → emit_all em calls w ≡ ok (stamped, em', w')
      → stamp_all sha256 em.hash_chain (events_of em.tenant_id calls) ≡ ok (stamped, em'.hash_chain)
  unfolding emit_all
  emit_all_stamps em em' [] w w' stamped p =
      unfold stamp_all in
      ap (λ (o : List (Fields F) × AuditEmitter F S × S). ok (o.0, o.1.hash_chain)) (ok-injective p)
  emit_all_stamps em em' ((call, now) ∷ calls) w w' stamped p =
      let (first, p1, q) = >>=-eq-ok (emit_internal sha256 em call now w) _ p in
      let (rest, p2, q2) = >>=-eq-ok (emit_all first.1 calls first.2) _ q in
      let e = emit_internal-Emitted em first.1 call now w first.2 first.0 p1 in
      let ih = emit_all_stamps first.1 rest.1 calls first.2 rest.2 rest.0 p2 in
      stamp_all-cons sha256 em.hash_chain first.1.hash_chain rest.1.hash_chain
        (event_of em.tenant_id call now) first.0 (events_of em.tenant_id calls) rest.0 e.stamps
        (ap (λ u. stamp_all sha256 first.1.hash_chain (events_of u calls)) (sym e.tenant) ∙ ih)
      ∙ ap (λ (o : List (Fields F) × AuditEmitter F S × S). ok (o.0, o.1.hash_chain))
          (ok-injective q2)
