-- ===== src/JobPool/Submit.antt =====
-- job_pool.rs: `submit`, as the atomic actions that other threads may come between.
use dart_edge.Base.{ℕ, Bool, [], ◌∷◌, ◌++◌, Option, none, some, length, leb, ◌==◌, if◌then◌else◌}
use dart_edge.Base.Words.{wrapping_inc}
use dart_edge.Base.Result.{Result, ok, err}
use dart_edge.JobPool.Counters.{max_round}
use dart_edge.JobPool.Pool.{NativeJobPool, NativeJobSubmitError, queue_full, closed}

-- Where a call of `submit` stands: the next action is the one that the name announces.
pub data Submit (I : Type 0) : Type 0 where
  entered : I → Submit I
  numbering : I → Submit I
  sending : ℕ → I → Submit I
  accepting : ℕ → Submit I
  queueing : ℕ → Submit I
  measuring : ℕ → ℕ → Submit I
  raising : ℕ → ℕ → ℕ → Submit I
  rejecting : NativeJobSubmitError → Submit I
  returned : Result ℕ NativeJobSubmitError → Submit I

-- What the bounded channel answers to `try_send`.
pub data Sent : Type 0 where
  delivered full disconnected : Sent

after_round : {I : Type 0} → ℕ → ℕ → Option ℕ → Submit I
after_round job_id candidate none = returned (ok job_id)
after_round job_id candidate (some current) = raising job_id candidate current

module _ {I O E : Type 0} where
  unfoldable pub try_send : NativeJobPool I O E → Sent
  try_send p =
      if p.receivers == 0
      then disconnected
      else if leb p.max_queue_size (length p.channel)
      then full
      else delivered

  unfoldable pub send : NativeJobPool I O E → ℕ → I → NativeJobPool I O E × Submit I
  unfolding try_send
  send p job_id input =
      if p.sender
      then elim (try_send p) [
        | delivered ↦ (record p { channel = p.channel ++ (job_id, input) ∷ [] }, accepting job_id)
        | full ↦ (p, rejecting queue_full)
        | disconnected ↦ (p, rejecting closed)
      ]
      else (p, rejecting closed)

  unfoldable pub reject : NativeJobPool I O E → NativeJobSubmitError → NativeJobPool I O E
  reject p queue_full = record p {
    counters = record p.counters {
      rejected_queue_full_jobs = wrapping_inc p.rejected_queue_full_jobs;
    };
  }
  reject p closed = record p {
    counters = record p.counters { rejected_closed_jobs = wrapping_inc p.rejected_closed_jobs };
  }

  -- One action of a call; `spurious` says whether a weak exchange fails for no reason.
  unfoldable pub submit_step :
      Bool → NativeJobPool I O E → Submit I → NativeJobPool I O E × Submit I
  unfolding send reject after_round max_round
  submit_step spurious p (entered input) = (
    record p { counters = record p.counters { submitted_jobs = wrapping_inc p.submitted_jobs } },
    numbering input,
  )
  submit_step spurious p (numbering input) =
      (record p { next_job_id = wrapping_inc p.next_job_id }, sending p.next_job_id input)
  submit_step spurious p (sending job_id input) = send p job_id input
  submit_step spurious p (accepting job_id) = (
    record p { counters = record p.counters { accepted_jobs = wrapping_inc p.accepted_jobs } },
    queueing job_id,
  )
  submit_step spurious p (queueing job_id) = (
    record p { counters = record p.counters { queued_jobs = wrapping_inc p.queued_jobs } },
    measuring job_id (wrapping_inc p.queued_jobs),
  )
  submit_step spurious p (measuring job_id candidate) =
      (p, raising job_id candidate p.max_observed_queued_jobs)
  submit_step spurious p (raising job_id candidate current) =
      let round = max_round p.max_observed_queued_jobs candidate current spurious in
      (
        record p { counters = record p.counters { max_observed_queued_jobs = round.0 } },
        after_round job_id candidate round.1,
      )
  submit_step spurious p (rejecting e) = (reject p e, returned (err e))
  submit_step spurious p (returned r) = (p, returned r)
