-- ===== src/Audit/Queue.antt =====
-- tessera/audit/async_emit.py: `AsyncAuditQueue`, as steps of one event loop. An item of the queue is
-- a job, or `none` for the sentinel of the shutdown; `asyncio.Queue` is a list with a bound, which
-- zero lifts. A job is handled when the emitter has returned or raised: the consumer goes on either
-- way.
pub mod Steps
pub mod Order
pub mod Bound
pub mod Drain
use cloudmorph_tessera.Prelude.{
  ℕ, Bool, true, false, ◌&&◌, Option, none, some, List, [], ◌∷◌, ◌++◌, length, ltb, leb,
  if◌then◌else◌, not,
}

pub record AsyncAuditQueue (J : Type 0) : Type 0 where
  pub maxsize : ℕ
  pub queue : Option (List (Option J))
  -- the task of `_run`, which has not returned
  pub is_running : Bool
  -- the job in the worker thread
  pub in_flight : Option J
  pub stopped : Bool
  -- `drain` waits for room for the sentinel
  pub is_putting : Bool
  pub handled : List J
  pub dropped : List J

module _ {J : Type 0} where
  unfoldable pub new_queue : ℕ → AsyncAuditQueue J
  new_queue maxsize = record {
    maxsize = maxsize;
    queue = none;
    is_running = false;
    in_flight = none;
    stopped = false;
    is_putting = false;
    handled = [];
    dropped = [];
  }

  -- a consumer that was made once is there for good
  unfoldable pub start : AsyncAuditQueue J → AsyncAuditQueue J
  start q = elim q.queue [ none ↦ record q { queue = some []; is_running = true } | some items ↦ q ]

  -- when `put_nowait` raises `QueueFull`
  abbrev pub is_full : ℕ → List (Option J) → Bool
  is_full maxsize items = ltb 0 maxsize && leb maxsize (length items)

  -- `enqueue`; without a queue the emitter is called at once
  unfoldable pub enqueue : J → AsyncAuditQueue J → AsyncAuditQueue J
  enqueue job q = elim q.queue [
    | none ↦ record q { handled = q.handled ++ (job ∷ []) }
    | some items ↦
        if is_full q.maxsize items
        then record q { dropped = q.dropped ++ (job ∷ []) }
        else record q { queue = some (items ++ (some job ∷ [])) }
  ]

  -- `drain` up to the wait for the consumer
  unfoldable pub drain : AsyncAuditQueue J → AsyncAuditQueue J
  drain q = elim q.queue [
    | none ↦ q
    | some items ↦
        if q.stopped
        then q
        else if is_full q.maxsize items
        then record q { stopped = true; is_putting = true }
        else record q { stopped = true; queue = some (items ++ (none ∷ [])) }
  ]

  -- `await self._queue.put(None)` goes on
  unfoldable pub put_sentinel : AsyncAuditQueue J → AsyncAuditQueue J
  put_sentinel q = elim q.queue [
    | none ↦ q
    | some items ↦
        if q.is_putting && not (is_full q.maxsize items)
        then record q { is_putting = false; queue = some (items ++ (none ∷ [])) }
        else q
  ]

  -- what `_run` does with an item: the sentinel ends it
  abbrev pub received : Option J → List (Option J) → AsyncAuditQueue J → AsyncAuditQueue J
  received none items q = record q { queue = some items; is_running = false }
  received (some job) items q = record q { queue = some items; in_flight = some job }

  -- `await self._queue.get()` goes on
  unfoldable pub get_job : AsyncAuditQueue J → AsyncAuditQueue J
  get_job q = elim q.queue [
    | none ↦ q
    | some [] ↦ q
    | some (item ∷ items) ↦ if q.is_running then received item items q else q
  ]

  -- the worker thread ends
  unfoldable pub finish_job : AsyncAuditQueue J → AsyncAuditQueue J
  finish_job q = elim q.in_flight [
    | none ↦ q
    | some job ↦ record q { in_flight = none; handled = q.handled ++ (job ∷ []) }
  ]

  -- a round of the consumer: it waits for the worker thread before it gets the next item
  unfoldable pub consume : AsyncAuditQueue J → AsyncAuditQueue J
  unfolding get_job finish_job
  consume q = elim q.in_flight [ none ↦ get_job q | some job ↦ finish_job q ]

  -- `drain` gives up waiting: the task is cancelled, its worker thread is not
  unfoldable pub cancel : AsyncAuditQueue J → AsyncAuditQueue J
  cancel q = record q { is_running = false }
