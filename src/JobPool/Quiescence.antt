-- ===== src/JobPool/Quiescence.antt =====
-- What the snapshot of job_pool.rs tells: exactly at rest, and up to a wrap-around in between.
use dart_edge.Base.{
  ℕ, zero, suc, false, ◌+◌, ◌-◌, ◌%◌, ◌<◌, ◌≡◌, refl, Bool, true, List, [], ◌∷◌, arith, length,
  total, all, total-replicate, replicate,
}
use dart_edge.Base.Words.{word}
use dart_edge.Base.Result.{ok}
use dart_edge.JobPool.Counters.{new_counters, snapshot}
use dart_edge.JobPool.Pool.{NativeJobPool, new_with_completion, metrics, pending_result_count}
use dart_edge.JobPool.Submit.{Submit, returned}
use dart_edge.JobPool.Worker.{Worker, receiving}
use dart_edge.JobPool.System.{System, Event, start, run, is_returned}
use dart_edge.JobPool.Balance.{
  owes_outcome, owes_accept, owes_queue, owes_dequeue, owes_start, is_active, owes_complete,
  is_live,
}
use dart_edge.JobPool.Conservation.{IsBalanced, run-IsBalanced}

callers_settled :
    {I : Type 0} (cs : List (Submit I))
    → all is_returned cs ≡ true
    → (total owes_outcome cs ≡ 0) × (total owes_accept cs ≡ 0) × (total owes_queue cs ≡ 0)
callers_settled [] h = (refl, refl, refl)
callers_settled (returned r ∷ cs) h = omega (arith, callers_settled cs h)
callers_settled (_ ∷ cs) h = ground arith

live-replicate :
    (I O E : Type 0) (n : ℕ) → total is_live (replicate {A = Worker I O E} n receiving) ≡ n
live-replicate I O E zero = refl
live-replicate I O E (suc n) = omega (arith, live-replicate I O E n)

module _ {I O E : Type 0} where
  pub start-IsBalanced :
      (workers queue port : ℕ) (p : NativeJobPool I O E)
      → new_with_completion workers queue port ≡ ok p
      → IsBalanced (start p)
  unfolding new_with_completion start new_counters
  start-IsBalanced workers queue port p h =
      let w : Worker I O E = receiving in
      ground (
        arith,
        total-replicate owes_dequeue p.receivers w refl,
        total-replicate owes_start p.receivers w refl,
        total-replicate is_active p.receivers w refl,
        total-replicate owes_complete p.receivers w refl,
        live-replicate I O E p.receivers,
      )

  -- A worker that waits for a job.
  abbrev pub is_receiving : Worker I O E → Bool
  is_receiving receiving = true
  is_receiving _ = false

  -- No call of `submit` is under way and every worker waits.
  pub record IsAtRest (s : System I O E) : Type 0 where
    pub callers : all is_returned s.callers ≡ true
    pub workers : all is_receiving s.workers ≡ true

  workers_settled :
      (ws : List (Worker I O E))
      → all is_receiving ws ≡ true
      → (total owes_dequeue ws ≡ 0)
        × (total owes_start ws ≡ 0)
        × (total is_active ws ≡ 0)
        × (total owes_complete ws ≡ 0)
  workers_settled [] h = (refl, refl, refl, refl)
  workers_settled (receiving ∷ ws) h = omega (arith, workers_settled ws h)
  workers_settled (_ ∷ ws) h = ground arith

  -- The equations between the numbers of a snapshot, and with the jobs that wait in the channel.
  pub record Exact (p : NativeJobPool I O E) : Type 0 where
    pub submitted :
        (metrics p).submitted_jobs
        ≡ ((metrics p).accepted_jobs
            + (metrics p).rejected_queue_full_jobs
            + (metrics p).rejected_closed_jobs)
          % word
    pub accepted : (metrics p).accepted_jobs ≡ ((metrics p).started_jobs + length p.channel) % word
    pub completed :
        (metrics p).started_jobs
        ≡ ((metrics p).completed_success_jobs + (metrics p).completed_error_jobs) % word
    pub queued : (metrics p).queued_jobs ≡ length p.channel % word
    pub active : (metrics p).active_jobs ≡ 0

  -- After any run of a new pool that ends at rest, the snapshot counts every job: the submitted
  -- ones are accepted or rejected, the accepted ones are started or in the channel, the started
  -- ones are completed, and the gauges show the channel's length and no active job (all but the
  -- last modulo 2 ^ 64).
  pub metrics-Exact :
      (workers queue port : ℕ) (p : NativeJobPool I O E) (es : List (Event I O E))
      → new_with_completion workers queue port ≡ ok p
      → IsAtRest (run (start p) es)
      → Exact (run (start p) es).pool
  unfolding metrics snapshot pending_result_count
  metrics-Exact workers queue port p es h rest =
      let s = run (start p) es in
      ground (
        arith,
        run-IsBalanced (start p) es (start-IsBalanced workers queue port p h),
        callers_settled s.callers rest.callers,
        workers_settled s.workers rest.workers,
      )

  -- After any run of a new pool, `queued_jobs` shows the jobs in the channel, with those that a
  -- worker has just received and not yet subtracted, less those that a caller has sent and not yet
  -- added, modulo 2 ^ 64 and as long as the latter are fewer than 2 ^ 64. While the latter are more
  -- than the former, the counter has thus wrapped below zero.
  pub queued_jobs_lem :
      (workers queue port : ℕ) (p : NativeJobPool I O E) (es : List (Event I O E))
      → new_with_completion workers queue port ≡ ok p
      → let s = run (start p) es in
        let shown = length s.pool.channel + total owes_dequeue s.workers in
        total owes_queue s.callers < word
        → (metrics s.pool).queued_jobs ≡ (word + shown - total owes_queue s.callers) % word
  unfolding metrics snapshot pending_result_count
  queued_jobs_lem workers queue port p es h few =
      let b = run-IsBalanced (start p) es (start-IsBalanced workers queue port p h) in
      omega (arith, b.queued, b.queued_word)
