-- ===== src/JobPool/Pool.antt =====
-- job_pool.rs: the pool's shared state and the operations that take one lock.
use dart_edge.Base.{ℕ, Bool, true, false, List, [], Option, none, some, length, ◌==◌, if◌then◌else◌}
use dart_edge.Base.Result.{Result, ok, err}
use dart_edge.Base.Keys.{nat_eq}
use dart_edge.Base.Map
use dart_edge.Base.Map.{Map}
use dart_edge.JobPool.Counters.{NativeJobPoolCounters, NativeJobPoolMetrics, new_counters, snapshot}

pub data NativeJobPoll : Type 0 where
  pending success failure : NativeJobPoll

pub data NativeJobSubmitError : Type 0 where
  queue_full closed : NativeJobSubmitError

pub data NewPoolError : Type 0 where
  no_workers no_queue : NewPoolError

-- `sender` says whether the pool still holds its end of the channel, and `receivers` counts the
-- workers that still hold the other end. `channel` has the oldest message first.
pub record NativeJobPool (I O E : Type 0) : Type 0 where
  pub sender : Bool
  pub channel : List (ℕ × I)
  pub receivers : ℕ
  pub results : Map ℕ (Result O E)
  pub counters : NativeJobPoolCounters
  pub open counters use *
  pub completion_port : ℕ
  pub next_job_id : ℕ

unfoldable pub new_with_completion :
    {I O E : Type 0} → ℕ → ℕ → ℕ → Result (NativeJobPool I O E) NewPoolError
new_with_completion worker_count max_queue_size completion_port =
    if worker_count == 0
    then err no_workers
    else (if max_queue_size == 0
        then err no_queue
        else ok (record {
          sender = true;
          channel = [];
          receivers = worker_count;
          results = [];
          counters = new_counters worker_count max_queue_size;
          completion_port = completion_port;
          next_job_id = 1;
        }))

module _ {I O E : Type 0} where
  unfoldable pub poll : NativeJobPool I O E → ℕ → NativeJobPoll
  poll p job_id = elim (Map.get job_id p.results) [
    | none ↦ pending
    | some (ok _) ↦ success
    | some (err _) ↦ failure
  ]

  unfoldable pub take_result : NativeJobPool I O E → ℕ → NativeJobPool I O E × Option (Result O E)
  take_result p job_id =
      (record p { results = Map.remove job_id p.results }, Map.get job_id p.results)

  unfoldable pub pending_result_count : NativeJobPool I O E → ℕ
  pending_result_count p = length p.results

  unfoldable pub metrics : NativeJobPool I O E → NativeJobPoolMetrics
  unfolding pending_result_count
  metrics p = snapshot p.counters (pending_result_count p)

  -- The first statement of `drop`.
  unfoldable pub close : NativeJobPool I O E → NativeJobPool I O E
  close p = record p { sender = false }
