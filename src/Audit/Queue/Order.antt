-- ===== src/Audit/Queue/Order.antt =====
-- Jobs are handled in the order in which they were accepted, and none is lost while it waits.
use cloudmorph_tessera.Prelude.{
  ◌≡◌, refl, sym, ap, ◌∙◌, ◌&&◌, not, Option, none, some, List, [], ◌∷◌, ◌++◌, append_assoc,
  append-nil, Bool-cases, Option-cases, inl, inr,
}
use cloudmorph_tessera.Audit.Queue.{
  AsyncAuditQueue, start, is_full, enqueue, drain, put_sentinel, get_job, finish_job, consume,
  cancel,
}
use cloudmorph_tessera.Audit.Queue.Steps.{
  jobs, queued, flying, taken, Step, starts, enqueues, drains, puts, consumes, cancels, Runs, rests,
  goes, all_jobs, IsSound, Idle-none, Step-IsSound, consume_idle, consume_busy,
}

module _ {J : Type 0} where
  jobs-append : (items more : List (Option J)) → jobs (items ++ more) ≡ jobs items ++ jobs more
  jobs-append [] more = refl
  jobs-append (none ∷ items) more = jobs-append items more
  jobs-append (some job ∷ items) more = ap (λ js. job ∷ js) (jobs-append items more)

  regroup : (a b c d : List J) → a ++ (b ++ (c ++ d)) ≡ (a ++ (b ++ c)) ++ d
  regroup a b c d = ap (λ l. a ++ l) (sym (append_assoc b c d)) ∙ sym (append_assoc a (b ++ c) d)

  enqueue-all_jobs :
      (job : J) (q : AsyncAuditQueue J)
      → IsSound q
      → all_jobs (enqueue job q) ≡ all_jobs q ++ taken job q
  unfolding enqueue
  enqueue-all_jobs job q sound = elim (Option-cases q.queue) [
    | inl e ↦
        rw (e, Idle-none q.queue q.in_flight e sound)
          (append-nil (q.handled ++ (job ∷ []))
            ∙ ap (λ l. l ++ (job ∷ [])) (sym (append-nil q.handled)))
    | inr (items, e) ↦ elim (Bool-cases (is_full q.maxsize items)) [
      | inl full ↦ rw (e, full) (sym (append-nil (q.handled ++ (flying q.in_flight ++ jobs items))))
      | inr room ↦
          rw (e, room, jobs-append items (some job ∷ []))
            (regroup q.handled (flying q.in_flight) (jobs items) (job ∷ []))
    ]
  ]

  with_sentinel : (items : List (Option J)) → jobs (items ++ (none ∷ [])) ≡ jobs items
  with_sentinel items = jobs-append items (none ∷ []) ∙ append-nil (jobs items)

  drain-all_jobs : (q : AsyncAuditQueue J) → all_jobs (drain q) ≡ all_jobs q
  unfolding drain
  drain-all_jobs q = elim (Option-cases q.queue) [
    | inl e ↦ rw e refl
    | inr (items, e) ↦ elim (Bool-cases q.stopped) [
      | inl again ↦ rw (e, again) refl
      | inr first ↦ elim (Bool-cases (is_full q.maxsize items)) [
        | inl full ↦ rw (e, first, full) refl
        | inr room ↦ rw (e, first, room, with_sentinel items) refl
      ]
    ]
  ]

  put_sentinel-all_jobs : (q : AsyncAuditQueue J) → all_jobs (put_sentinel q) ≡ all_jobs q
  unfolding put_sentinel
  put_sentinel-all_jobs q = elim (Option-cases q.queue) [
    | inl e ↦ rw e refl
    | inr (items, e) ↦ elim (Bool-cases (q.is_putting && not (is_full q.maxsize items))) [
      | inl room ↦ rw (e, room, with_sentinel items) refl
      | inr full ↦ rw (e, full) refl
    ]
  ]

  start-all_jobs : (q : AsyncAuditQueue J) → all_jobs (start q) ≡ all_jobs q
  unfolding start
  start-all_jobs q = elim (Option-cases q.queue) [ inl e ↦ rw e refl | inr (items, e) ↦ rw e refl ]

  get_job-all_jobs :
      (q : AsyncAuditQueue J) → q.in_flight ≡ none → all_jobs (get_job q) ≡ all_jobs q
  unfolding get_job
  get_job-all_jobs q idle = elim (Option-cases q.queue) [
    | inl e ↦ rw e refl
    | inr ([], e) ↦ rw e refl
    | inr (none ∷ items, e) ↦ elim (Bool-cases q.is_running) [
      | inl on ↦ rw (e, on) refl
      | inr off ↦ rw (e, off) refl
    ]
    | inr (some job ∷ items, e) ↦ elim (Bool-cases q.is_running) [
      | inl on ↦ rw (e, on, idle) refl
      | inr off ↦ rw (e, off) refl
    ]
  ]

  finish_job-all_jobs : (q : AsyncAuditQueue J) → all_jobs (finish_job q) ≡ all_jobs q
  unfolding finish_job
  finish_job-all_jobs q = elim (Option-cases q.in_flight) [
    | inl e ↦ rw e refl
    | inr (job, e) ↦ rw e (append_assoc q.handled (job ∷ []) (queued q.queue))
  ]

  consume-all_jobs : (q : AsyncAuditQueue J) → all_jobs (consume q) ≡ all_jobs q
  consume-all_jobs q = elim (Option-cases q.in_flight) [
    | inl e ↦ ap all_jobs (consume_idle q e) ∙ get_job-all_jobs q e
    | inr (job, e) ↦ ap all_jobs (consume_busy q job e) ∙ finish_job-all_jobs q
  ]

  Step-all_jobs :
      (q end : AsyncAuditQueue J) (more : List J)
      → IsSound q
      → Step q end more
      → all_jobs end ≡ all_jobs q ++ more
  Step-all_jobs q end more sound starts = start-all_jobs q ∙ sym (append-nil (all_jobs q))
  Step-all_jobs q end more sound (enqueues job) = enqueue-all_jobs job q sound
  Step-all_jobs q end more sound drains = drain-all_jobs q ∙ sym (append-nil (all_jobs q))
  Step-all_jobs q end more sound puts = put_sentinel-all_jobs q ∙ sym (append-nil (all_jobs q))
  Step-all_jobs q end more sound consumes = consume-all_jobs q ∙ sym (append-nil (all_jobs q))
  Step-all_jobs q end more sound cancels = unfold cancel in sym (append-nil (all_jobs q))

  -- From a sound state: what a run has handled, then the job in the worker thread, then the jobs
  -- that wait, are those that it has started with and those that it has accepted, in that order. So no
  -- accepted job is lost while the queue holds it, overtaken or handled twice.
  pub Runs-all_jobs :
      (q end : AsyncAuditQueue J) (accepted : List J)
      → IsSound q
      → Runs q end accepted
      → (all_jobs end ≡ all_jobs q ++ accepted) × IsSound end
  Runs-all_jobs q end accepted sound rests = (sym (append-nil (all_jobs q)), sound)
  Runs-all_jobs q end accepted sound
        (goes {mid} {end = last} {accepted = before} {more} runs step) =
      let (jobs_of, mid_sound) = Runs-all_jobs q mid before sound runs in
      (
        Step-all_jobs mid end more mid_sound step
            ∙ ap (λ l. l ++ more) jobs_of
            ∙ append_assoc (all_jobs q) before more,
        Step-IsSound mid end more mid_sound step,
      )
