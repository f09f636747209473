-- ===== src/JobPool/Worker.antt =====
-- job_pool.rs: a worker thread, as the atomic actions that other threads may come between.
use dart_edge.Base.{
  ℕ, ◌-◌, Bool, false, not, ◌&&◌, [], ◌∷◌, Option, none, some, ◌==◌, if◌then◌else◌,
}
use dart_edge.Base.Words.{wrapping_inc, wrapping_dec}
use dart_edge.Base.Result.{Result, ok, err}
use dart_edge.Base.Keys.{nat_eq}
use dart_edge.Base.Map
use dart_edge.JobPool.Counters.{max_round}
use dart_edge.JobPool.Pool.{NativeJobPool}

-- Where a worker stands: the next action is the one that the name announces. `crashed` is a thread
-- that the handler's panic has ended.
pub data Worker (I O E : Type 0) : Type 0 where
  receiving : Worker I O E
  dequeueing : ℕ → I → Worker I O E
  starting : ℕ → I → Worker I O E
  activating : ℕ → I → Worker I O E
  measuring : ℕ → I → ℕ → Worker I O E
  raising : ℕ → I → ℕ → ℕ → Worker I O E
  handling : ℕ → I → Worker I O E
  completing : ℕ → Result O E → Worker I O E
  storing : ℕ → Result O E → Worker I O E
  deactivating : ℕ → Worker I O E
  posting : ℕ → Worker I O E
  noting : Worker I O E
  exited : Worker I O E
  crashed : Worker I O E

-- What a step takes from outside: the handler's result (`none` is a panic), whether the Dart VM
-- takes a message, and whether a weak exchange fails for no reason.
pub record Outcome (O E : Type 0) : Type 0 where
  pub result : Option (Result O E)
  pub posted : Bool
  pub spurious : Bool

-- `NativeCompletionPort::is_empty` and `post_job_id`, over the answer of the Dart VM.
unfoldable pub port_is_empty : ℕ → Bool
port_is_empty port = port == 0

unfoldable pub post_job_id : ℕ → Bool → Bool
unfolding port_is_empty
post_job_id port posted = if port_is_empty port then false else posted

module _ {I O E : Type 0} where
  -- `recv`: the oldest message; a closed and empty channel ends the thread; otherwise it waits.
  unfoldable pub receive : NativeJobPool I O E → NativeJobPool I O E × Worker I O E
  receive p = elim p.channel [
    | [] ↦ if p.sender then (p, receiving) else (record p { receivers = p.receivers - 1 }, exited)
    | (job_id, input) ∷ rest ↦ (record p { channel = rest }, dequeueing job_id input)
  ]

  unfoldable pub handle :
      Option (Result O E) → NativeJobPool I O E → ℕ → NativeJobPool I O E × Worker I O E
  handle none p job_id = (record p { receivers = p.receivers - 1 }, crashed)
  handle (some result) p job_id = (p, completing job_id result)

  unfoldable pub complete : NativeJobPool I O E → Result O E → NativeJobPool I O E
  complete p (ok o) = record p {
    counters = record p.counters { completed_success_jobs = wrapping_inc p.completed_success_jobs };
  }
  complete p (err e) = record p {
    counters = record p.counters { completed_error_jobs = wrapping_inc p.completed_error_jobs };
  }

  after_round : ℕ → I → ℕ → Option ℕ → Worker I O E
  after_round job_id input candidate none = handling job_id input
  after_round job_id input candidate (some current) = raising job_id input candidate current

  -- One action of a worker.
  unfoldable pub worker_step :
      Outcome O E → NativeJobPool I O E → Worker I O E → NativeJobPool I O E × Worker I O E
  unfolding receive handle complete after_round max_round post_job_id
  worker_step c p receiving = receive p
  worker_step c p (dequeueing job_id input) = (
    record p { counters = record p.counters { queued_jobs = wrapping_dec p.queued_jobs } },
    starting job_id input,
  )
  worker_step c p (starting job_id input) = (
    record p { counters = record p.counters { started_jobs = wrapping_inc p.started_jobs } },
    activating job_id input,
  )
  worker_step c p (activating job_id input) = (
    record p { counters = record p.counters { active_jobs = wrapping_inc p.active_jobs } },
    measuring job_id input (wrapping_inc p.active_jobs),
  )
  worker_step c p (measuring job_id input candidate) =
      (p, raising job_id input candidate p.max_observed_active_jobs)
  worker_step c p (raising job_id input candidate current) =
      let round = max_round p.max_observed_active_jobs candidate current c.spurious in
      (
        record p { counters = record p.counters { max_observed_active_jobs = round.0 } },
        after_round job_id input candidate round.1,
      )
  worker_step c p (handling job_id input) = handle c.result p job_id
  worker_step c p (completing job_id result) = (complete p result, storing job_id result)
  worker_step c p (storing job_id result) =
      (record p { results = Map.insert job_id result p.results }, deactivating job_id)
  worker_step c p (deactivating job_id) = (
    record p { counters = record p.counters { active_jobs = wrapping_dec p.active_jobs } },
    posting job_id,
  )
  worker_step c p (posting job_id) =
      if not (post_job_id p.completion_port c.posted) && not (port_is_empty p.completion_port)
      then (p, noting)
      else (p, receiving)
  worker_step c p noting = (
    record p {
      counters = record p.counters {
        completion_post_failed_jobs = wrapping_inc p.completion_post_failed_jobs;
      };
    },
    receiving,
  )
  worker_step c p exited = (p, exited)
  worker_step c p crashed = (p, crashed)
