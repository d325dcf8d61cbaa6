-- ===== src/Audit/Queue/Drain.antt =====
-- `drain` ends: without a timeout, the consumer reaches the sentinel after all waiting jobs.
use cloudmorph_tessera.Prelude.{
  ℕ, suc, zero, ◌+◌, ◌*◌, ◌≤◌, ◌≡◌, refl, sym, ap, ◌∙◌, Bool, true, false, ◌&&◌, Option, none, some,
  List, [], ◌∷◌, ◌++◌, map, length, append_assoc, append-nil, arith, Bool-cases, inl, inr,
}
use cloudmorph_tessera.Audit.Queue.{
  AsyncAuditQueue, is_full, drain, put_sentinel, get_job, finish_job, consume,
}
use cloudmorph_tessera.Audit.Queue.Steps.{jobs, queued, flying, all_jobs}

module _ {J : Type 0} where
  -- rounds of the consumer, after each of which the sentinel is put if there is room for it
  unfoldable pub flush : ℕ → AsyncAuditQueue J → AsyncAuditQueue J
  flush zero q = q
  flush (suc n) q = flush n (put_sentinel (consume q))

  -- the sentinel stands at the end, unless it waits
  items_of : List J → Bool → List (Option J)
  items_of js true = map some js
  items_of js false = map some js ++ (none ∷ [])

  -- a queue that drains
  abbrev draining : AsyncAuditQueue J → List J → Option J → List J → Bool → AsyncAuditQueue J
  draining q done job js putting = record q {
    queue = some (items_of js putting);
    is_running = true;
    in_flight = job;
    stopped = true;
    is_putting = putting;
    handled = done;
  }

  abbrev drained : AsyncAuditQueue J → List J → AsyncAuditQueue J
  drained q done = record q {
    queue = some [];
    is_running = false;
    in_flight = none;
    stopped = true;
    is_putting = false;
    handled = done;
  }

  -- whether the sentinel still waits
  abbrev waits : AsyncAuditQueue J → List J → Bool → Bool
  waits q js putting = putting && is_full q.maxsize (map some js)

  put-draining :
      (q : AsyncAuditQueue J) (done : List J) (job : Option J) (js : List J) (putting : Bool)
      → put_sentinel (draining q done job js putting) ≡ draining q done job js (waits q js putting)
  unfolding put_sentinel items_of
  put-draining q done job js false = refl
  put-draining q done job js true = elim (Bool-cases (is_full q.maxsize (map some js))) [
    | inl full ↦ rw full refl
    | inr room ↦ rw room refl
  ]

  round_busy :
      (q : AsyncAuditQueue J) (done : List J) (job : J) (js : List J) (putting : Bool)
      → put_sentinel (consume (draining q done (some job) js putting))
        ≡ draining q (done ++ (job ∷ [])) none js (waits q js putting)
  unfolding consume finish_job
  round_busy q done job js putting = put-draining q (done ++ (job ∷ [])) none js putting

  round_idle :
      (q : AsyncAuditQueue J) (done : List J) (job : J) (js : List J) (putting : Bool)
      → put_sentinel (consume (draining q done none (job ∷ js) putting))
        ≡ draining q done (some job) js (waits q js putting)
  unfolding consume get_job items_of
  round_idle q done job js true = put-draining q done (some job) js true
  round_idle q done job js false = put-draining q done (some job) js false

  round_empty :
      (q : AsyncAuditQueue J) (done : List J)
      → put_sentinel (consume (draining q done none [] true)) ≡ draining q done none [] false
  unfolding consume get_job items_of put_sentinel
  round_empty q done =
      let room : is_full {J = J} q.maxsize [] ≡ false = ground arith in rw room refl

  round_last :
      (q : AsyncAuditQueue J) (done : List J)
      → put_sentinel (consume (draining q done none [] false)) ≡ drained q done
  unfolding consume get_job items_of put_sentinel
  round_last q done = refl

  jobs-some : (js : List J) → jobs (map some js) ≡ js
  jobs-some [] = refl
  jobs-some (job ∷ js) = ap (λ l. job ∷ l) (jobs-some js)

  flush-drained :
      (n : ℕ) (q : AsyncAuditQueue J) (done : List J) → flush n (drained q done) ≡ drained q done
  unfolding flush consume get_job put_sentinel
  flush-drained zero q done = refl
  flush-drained (suc n) q done = flush-drained n q done

  flush-draining :
      (n : ℕ) (q : AsyncAuditQueue J) (done : List J) (job : Option J) (js : List J)
      (putting : Bool)
      → 2 * length js + length (flying job) + 2 ≤ n
      → flush n (draining q done job js putting) ≡ drained q (done ++ (flying job ++ js))
  unfolding flush
  flush-draining zero q done job js putting h = absurd (omega (arith, h))
  flush-draining (suc n) q done (some job) js putting h =
      ap (flush n) (round_busy q done job js putting)
      ∙ flush-draining n q (done ++ (job ∷ [])) none js (waits q js putting) (omega (arith, h))
      ∙ ap (drained q) (append_assoc done (job ∷ []) js)
  flush-draining (suc n) q done none (job ∷ js) putting h =
      ap (flush n) (round_idle q done job js putting)
      ∙ flush-draining n q done (some job) js (waits q js putting) (omega (arith, h))
  flush-draining (suc n) q done none [] false h =
      ap (flush n) (round_last q done)
      ∙ flush-drained n q done
      ∙ ap (drained q) (sym (append-nil done))
  flush-draining (suc zero) q done none [] true h = absurd (omega (arith, h))
  flush-draining (suc (suc n)) q done none [] true h =
      ap (λ r. flush n (put_sentinel (consume r))) (round_empty q done)
      ∙ ap (flush n) (round_last q done)
      ∙ flush-drained n q done
      ∙ ap (drained q) (sym (append-nil done))

  same_state :
      (q : AsyncAuditQueue J) (js : List J)
      → q.queue ≡ some (map some js)
      → q.is_running ≡ true
      → q.stopped ≡ false
      → q.is_putting ≡ false
      → drain q ≡ draining q q.handled q.in_flight js (is_full q.maxsize (map some js))
  unfolding drain items_of
  same_state q js e on first free = elim (Bool-cases (is_full q.maxsize (map some js))) [
    | inl full ↦ rw (e, on, first, free, full) refl
    | inr room ↦ rw (e, on, first, free, room) refl
  ]

  -- Once a running queue, whose items are jobs, is drained, and as many rounds have passed as two
  -- for each waiting job, one for the job in the worker thread and two more, the consumer has
  -- returned, the queue is empty, and all its jobs have been handled, in their order.
  pub drain_flushes :
      (q : AsyncAuditQueue J) (js : List J) (n : ℕ)
      → q.queue ≡ some (map some js)
      → q.is_running ≡ true
      → q.stopped ≡ false
      → q.is_putting ≡ false
      → 2 * length js + length (flying q.in_flight) + 2 ≤ n
      → ((flush n (drain q)).handled ≡ all_jobs q)
        × ((flush n (drain q)).is_running ≡ false)
        × ((flush n (drain q)).queue ≡ some [])
        × ((flush n (drain q)).in_flight ≡ none)
  drain_flushes q js n e on first free h =
      let reaches : flush n (drain q) ≡ drained q (q.handled ++ (flying q.in_flight ++ js)) =
        ap (flush n) (same_state q js e on first free)
        ∙ flush-draining n q q.handled q.in_flight js (is_full q.maxsize (map some js)) h in
      let waiting : js ≡ queued q.queue = sym (ap queued e ∙ jobs-some js) in
      (
        ap (λ (r : AsyncAuditQueue J). r.handled) reaches
            ∙ ap (λ l. q.handled ++ (flying q.in_flight ++ l)) waiting,
        ap (λ (r : AsyncAuditQueue J). r.is_running) reaches,
        ap (λ (r : AsyncAuditQueue J). r.queue) reaches,
        ap (λ (r : AsyncAuditQueue J). r.in_flight) reaches,
      )
