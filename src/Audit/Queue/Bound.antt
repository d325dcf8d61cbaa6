-- ===== src/Audit/Queue/Bound.antt =====
-- The bound of the queue.
use cloudmorph_tessera.Prelude.{
  ℕ, ◌≡◌, sym, false, ◌&&◌, Option, none, some, List, [], ◌∷◌, ◌++◌, length, ltb, arith, Bool-cases,
  Option-cases, inl, inr, length-append,
}
use mathlib.Core.Path.{subst}
use cloudmorph_tessera.Audit.Queue.{
  AsyncAuditQueue, start, is_full, enqueue, drain, put_sentinel, get_job, finish_job, cancel,
}
use cloudmorph_tessera.Audit.Queue.Steps.{
  Step, starts, enqueues, drains, puts, consumes, cancels, Runs, rests, goes, consume_idle,
  consume_busy,
}

module _ {J : Type 0} where
  -- no more items than the bound, if there is one
  abbrev pub Fits : ℕ → Option (List (Option J)) → Type 0
  Fits maxsize none = Unit
  Fits maxsize (some items) = (ltb 0 maxsize && ltb maxsize (length items)) ≡ false

  abbrev pub IsWithin : AsyncAuditQueue J → Type 0
  IsWithin q = Fits q.maxsize q.queue

  Fits-append :
      (maxsize : ℕ) (items : List (Option J)) (item : Option J)
      → is_full maxsize items ≡ false
      → Fits maxsize (some (items ++ (item ∷ [])))
  Fits-append maxsize items item room = ground (arith, length-append items (item ∷ []))

  Fits-rest :
      (maxsize : ℕ) (items : List (Option J)) (item : Option J)
      → Fits maxsize (some (item ∷ items))
      → Fits maxsize (some items)
  Fits-rest maxsize items item h = ground arith

  Fits-some :
      (maxsize : ℕ) (queue : Option (List (Option J))) (items : List (Option J))
      → queue ≡ some items
      → Fits maxsize queue
      → Fits maxsize (some items)
  Fits-some maxsize queue items e h = subst (Fits maxsize) e h

  get_job-IsWithin : (q : AsyncAuditQueue J) → IsWithin q → IsWithin (get_job q)
  unfolding get_job
  get_job-IsWithin q h = elim (Option-cases q.queue) [
    | inl e ↦ rw e tt
    | inr ([], e) ↦ rw e (ground arith)
    | inr (none ∷ items, e) ↦ elim (Bool-cases q.is_running) [
      | inl on ↦ rw (e, on) (Fits-rest q.maxsize items none (Fits-some q.maxsize q.queue _ e h))
      | inr off ↦ rw (e, off) (Fits-some q.maxsize q.queue _ e h)
    ]
    | inr (some job ∷ items, e) ↦ elim (Bool-cases q.is_running) [
      | inl on ↦
          rw (e, on) (Fits-rest q.maxsize items (some job) (Fits-some q.maxsize q.queue _ e h))
      | inr off ↦ rw (e, off) (Fits-some q.maxsize q.queue _ e h)
    ]
  ]

  finish_job-IsWithin : (q : AsyncAuditQueue J) → IsWithin q → IsWithin (finish_job q)
  unfolding finish_job
  finish_job-IsWithin q h = elim (Option-cases q.in_flight) [
    | inl e ↦ rw e h
    | inr (job, e) ↦ rw e h
  ]

  Step-IsWithin :
      (q end : AsyncAuditQueue J) (more : List J) → IsWithin q → Step q end more → IsWithin end
  unfolding start enqueue drain put_sentinel cancel
  Step-IsWithin q end more h starts = elim (Option-cases q.queue) [
    | inl e ↦ rw e (ground arith)
    | inr (items, e) ↦ rw e (Fits-some q.maxsize q.queue items e h)
  ]
  Step-IsWithin q end more h (enqueues job) = elim (Option-cases q.queue) [
    | inl e ↦ rw e tt
    | inr (items, e) ↦ elim (Bool-cases (is_full q.maxsize items)) [
      | inl full ↦ rw (e, full) (Fits-some q.maxsize q.queue items e h)
      | inr room ↦ rw (e, room) (Fits-append q.maxsize items (some job) room)
    ]
  ]
  Step-IsWithin q end more h drains = elim (Option-cases q.queue) [
    | inl e ↦ rw e tt
    | inr (items, e) ↦ elim (Bool-cases q.stopped) [
      | inl again ↦ rw (e, again) (Fits-some q.maxsize q.queue items e h)
      | inr first ↦ elim (Bool-cases (is_full q.maxsize items)) [
        | inl full ↦ rw (e, first, full) (Fits-some q.maxsize q.queue items e h)
        | inr room ↦ rw (e, first, room) (Fits-append q.maxsize items none room)
      ]
    ]
  ]
  Step-IsWithin q end more h puts = elim (Option-cases q.queue) [
    | inl e ↦ rw e tt
    | inr (items, e) ↦ elim (Bool-cases (is_full q.maxsize items)) [
      | inl full ↦ elim (Bool-cases q.is_putting) [
        | inl waits ↦ rw (e, waits, full) (Fits-some q.maxsize q.queue items e h)
        | inr free ↦ rw (e, free) (Fits-some q.maxsize q.queue items e h)
      ]
      | inr room ↦ elim (Bool-cases q.is_putting) [
        | inl waits ↦ rw (e, waits, room) (Fits-append q.maxsize items none room)
        | inr free ↦ rw (e, free) (Fits-some q.maxsize q.queue items e h)
      ]
    ]
  ]
  Step-IsWithin q end more h consumes = elim (Option-cases q.in_flight) [
    | inl e ↦ subst IsWithin (sym (consume_idle q e)) (get_job-IsWithin q h)
    | inr (job, e) ↦ subst IsWithin (sym (consume_busy q job e)) (finish_job-IsWithin q h)
  ]
  Step-IsWithin q end more h cancels = h

  -- From a queue that has no more items than its bound, if the bound is not zero, every run ends in
  -- such a queue.
  pub Runs-IsWithin :
      (q end : AsyncAuditQueue J) (accepted : List J)
      → IsWithin q
      → Runs q end accepted
      → IsWithin end
  Runs-IsWithin q end accepted h rests = h
  Runs-IsWithin q end accepted h (goes {mid} {end = last} {accepted = before} {more} runs step) =
      Step-IsWithin mid end more (Runs-IsWithin q mid before h runs) step
