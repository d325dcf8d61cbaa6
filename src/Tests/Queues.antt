-- ===== src/Tests/Queues.antt =====
-- The audit queue at two places: a third job is dropped, and the two are flushed.
use cloudmorph_tessera.Prelude.{ℕ, ◌≡◌, refl, true, false, none, some, [], ◌∷◌, ◌++◌, arith}
use cloudmorph_tessera.Audit.Queue.{
  AsyncAuditQueue, new_queue, start, enqueue, consume, drain, put_sentinel,
}
use cloudmorph_tessera.Audit.Queue.Steps.{
  Runs, rests, goes, starts, enqueues, consumes, all_jobs, IsSound,
}
use cloudmorph_tessera.Audit.Queue.Order.{Runs-all_jobs}
use cloudmorph_tessera.Audit.Queue.Bound.{IsWithin, Runs-IsWithin}
use cloudmorph_tessera.Audit.Queue.Drain.{flush, drain_flushes}

abbrev fresh : AsyncAuditQueue ℕ
fresh = new_queue 2

abbrev started : AsyncAuditQueue ℕ
started = start fresh

abbrev filled : AsyncAuditQueue ℕ
filled = enqueue 3 (enqueue 2 (enqueue 1 started))

filled-Runs : Runs fresh (consume filled) (1 ∷ 2 ∷ [])
unfolding new_queue start enqueue
filled-Runs =
    goes (goes (goes (goes (goes rests starts) (enqueues 1)) (enqueues 2)) (enqueues 3)) consumes

Runs-all_jobs_example :
    (all_jobs (consume filled) ≡ all_jobs fresh ++ (1 ∷ 2 ∷ [])) × IsSound (consume filled)
unfolding new_queue
Runs-all_jobs_example = Runs-all_jobs fresh (consume filled) (1 ∷ 2 ∷ []) refl filled-Runs

Runs-IsWithin_example : IsWithin (consume filled)
unfolding new_queue
Runs-IsWithin_example = Runs-IsWithin fresh (consume filled) (1 ∷ 2 ∷ []) tt filled-Runs

third_is_dropped : filled.dropped ≡ 3 ∷ []
unfolding new_queue start enqueue
third_is_dropped = refl

abbrev full : AsyncAuditQueue ℕ
full = record {
  maxsize = 2;
  queue = some (some 1 ∷ some 2 ∷ []);
  is_running = true;
  in_flight = none;
  stopped = false;
  is_putting = false;
  handled = [];
  dropped = 3 ∷ [];
}

drain_flushes_example :
    ((flush 6 (drain full)).handled ≡ 1 ∷ 2 ∷ [])
    × ((flush 6 (drain full)).is_running ≡ false)
    × ((flush 6 (drain full)).queue ≡ some [])
    × ((flush 6 (drain full)).in_flight ≡ none)
drain_flushes_example = drain_flushes full (1 ∷ 2 ∷ []) 6 refl refl refl refl (omega arith)

-- A job that comes after the sentinel is neither handled nor dropped.
late_job : (flush 9 (enqueue 4 (drain (record full { queue = some [] })))).handled ≡ []
unfolding flush enqueue drain consume put_sentinel
late_job = refl

late_job_kept :
    (flush 9 (enqueue 4 (drain (record full { queue = some [] })))).queue ≡ some (some 4 ∷ [])
unfolding flush enqueue drain consume put_sentinel
late_job_kept = refl
