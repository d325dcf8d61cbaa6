-- ===== src/Audit/Queue/Steps.antt =====
-- The runs of the queue: its steps, with the jobs that they accept.
use cloudmorph_tessera.Prelude.{
  ◌≡◌, refl, sym, ap, ◌&&◌, not, Option, none, some, List, [], ◌∷◌, ◌++◌, if◌then◌else◌, Bool-cases,
  Option-cases, inl, inr,
}
use mathlib.Core.Path.{subst}
use cloudmorph_tessera.Audit.Queue.{
  AsyncAuditQueue, start, is_full, enqueue, drain, put_sentinel, get_job, finish_job, consume,
  cancel,
}

module _ {J : Type 0} where
  -- the jobs among the items, and the one in the worker thread
  abbrev pub jobs : List (Option J) → List J
  jobs [] = []
  jobs (none ∷ items) = jobs items
  jobs (some job ∷ items) = job ∷ jobs items

  abbrev pub queued : Option (List (Option J)) → List J
  queued none = []
  queued (some items) = jobs items

  abbrev pub flying : Option J → List J
  flying none = []
  flying (some job) = job ∷ []

  -- what a call of `enqueue` takes in: all, but where the queue is full
  abbrev pub taken : J → AsyncAuditQueue J → List J
  taken job q = elim q.queue [
    | none ↦ job ∷ []
    | some items ↦ if is_full q.maxsize items then [] else job ∷ []
  ]

  -- The steps from a state, with the jobs that they take in and those that they drop.
  pub data Step (q : AsyncAuditQueue J) : AsyncAuditQueue J → List J → Type 0 where
    starts : Step q (start q) []
    enqueues : (job : J) → Step q (enqueue job q) (taken job q)
    drains : Step q (drain q) []
    puts : Step q (put_sentinel q) []
    consumes : Step q (consume q) []
    cancels : Step q (cancel q) []

  pub data Runs (q : AsyncAuditQueue J) : AsyncAuditQueue J → List J → Type 0 where
    rests : Runs q q []
    goes :
        {mid end : AsyncAuditQueue J} {accepted more : List J}
        → Runs q mid accepted
        → Step mid end more
        → Runs q end (accepted ++ more)

  -- every accepted job, in order: handled, in the worker thread, or waiting
  abbrev pub all_jobs : AsyncAuditQueue J → List J
  all_jobs q = q.handled ++ (flying q.in_flight ++ queued q.queue)

  -- Before it is started, the queue has no job in a worker thread.
  abbrev pub Idle : Option (List (Option J)) → Option J → Type 0
  Idle none job = job ≡ none
  Idle (some items) job = Unit

  abbrev pub IsSound : AsyncAuditQueue J → Type 0
  IsSound q = Idle q.queue q.in_flight

  pub Idle-none :
      (queue : Option (List (Option J))) (job : Option J)
      → queue ≡ none
      → Idle queue job
      → job ≡ none
  Idle-none none job e idle = idle
  Idle-none (some items) job e idle = cc

  pub consume_idle : (q : AsyncAuditQueue J) → q.in_flight ≡ none → consume q ≡ get_job q
  unfolding consume
  consume_idle q idle = ap (λ o. elim o [ none ↦ get_job q | some job ↦ finish_job q ]) idle

  pub consume_busy :
      (q : AsyncAuditQueue J) (job : J) → q.in_flight ≡ some job → consume q ≡ finish_job q
  unfolding consume
  consume_busy q job busy = ap (λ o. elim o [ none ↦ get_job q | some job ↦ finish_job q ]) busy

  get_job-IsSound : (q : AsyncAuditQueue J) → q.in_flight ≡ none → IsSound (get_job q)
  unfolding get_job
  get_job-IsSound q idle = elim (Option-cases q.queue) [
    | inl e ↦ rw e idle
    | inr ([], e) ↦ rw e tt
    | inr (none ∷ items, e) ↦ elim (Bool-cases q.is_running) [
      | inl on ↦ rw (e, on) tt
      | inr off ↦ rw (e, off) tt
    ]
    | inr (some job ∷ items, e) ↦ elim (Bool-cases q.is_running) [
      | inl on ↦ rw (e, on) tt
      | inr off ↦ rw (e, off) tt
    ]
  ]

  finish_job-IsSound : (q : AsyncAuditQueue J) → IsSound q → IsSound (finish_job q)
  unfolding finish_job
  finish_job-IsSound q sound = elim (Option-cases q.in_flight) [
    | inl e ↦ rw e (subst (Idle q.queue) e sound)
    | inr (job, e) ↦ rw e (still q.queue)
  ]
    where
      still : (queue : Option (List (Option J))) → Idle queue none
      still none = refl
      still (some items) = tt

  -- Every step keeps this, as only a queue has items.
  pub Step-IsSound :
      (q end : AsyncAuditQueue J) (more : List J) → IsSound q → Step q end more → IsSound end
  unfolding start enqueue drain put_sentinel cancel
  Step-IsSound q end more sound starts = elim (Option-cases q.queue) [
    | inl e ↦ rw e tt
    | inr (items, e) ↦ rw e tt
  ]
  Step-IsSound q end more sound (enqueues job) = elim (Option-cases q.queue) [
    | inl e ↦ rw e (Idle-none q.queue q.in_flight e sound)
    | inr (items, e) ↦ elim (Bool-cases (is_full q.maxsize items)) [
      | inl full ↦ rw (e, full) tt
      | inr room ↦ rw (e, room) tt
    ]
  ]
  Step-IsSound q end more sound drains = elim (Option-cases q.queue) [
    | inl e ↦ rw e (Idle-none q.queue q.in_flight e sound)
    | inr (items, e) ↦ elim (Bool-cases q.stopped) [
      | inl again ↦ rw (e, again) tt
      | inr first ↦ elim (Bool-cases (is_full q.maxsize items)) [
        | inl full ↦ rw (e, first, full) tt
        | inr room ↦ rw (e, first, room) tt
      ]
    ]
  ]
  Step-IsSound q end more sound puts = elim (Option-cases q.queue) [
    | inl e ↦ rw e (Idle-none q.queue q.in_flight e sound)
    | inr (items, e) ↦ elim (Bool-cases (q.is_putting && not (is_full q.maxsize items))) [
      | inl room ↦ rw (e, room) tt
      | inr full ↦ rw (e, full) tt
    ]
  ]
  Step-IsSound q end more sound consumes = elim (Option-cases q.in_flight) [
    | inl e ↦ subst IsSound (sym (consume_idle q e)) (get_job-IsSound q e)
    | inr (job, e) ↦ subst IsSound (sym (consume_busy q job e)) (finish_job-IsSound q sound)
  ]
  Step-IsSound q end more sound cancels = sound
