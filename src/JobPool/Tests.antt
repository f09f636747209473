-- ===== src/JobPool/Tests.antt =====
-- Runs of job_pool.rs on concrete schedules, and its theorems at these.
use dart_edge.Base.{
  ℕ, ◌-◌, ◌+◌, ◌*◌, ◌≤◌, ◌<◌, ◌≡◌, refl, Bool, true, false, List, [], ◌∷◌, ◌++◌, some, none, arith,
  length, total, replicate, get_elem?,
}
use dart_edge.Base.Keys.{nat_eq}
use dart_edge.Base.Map
use dart_edge.Base.Words.{word_max}
use dart_edge.Base.Result.{ok}
use dart_edge.JobPool.Counters.{new_counters, snapshot}
use dart_edge.JobPool.Pool.{NativeJobPool, new_with_completion, metrics, poll, take_result, pending}
use dart_edge.JobPool.Submit.{submit_step, returned}
use dart_edge.JobPool.Worker.{worker_step, Outcome}
use dart_edge.JobPool.System.{Event, calls, submits, works, start, step, run}
use dart_edge.JobPool.Quiescence.{Exact, metrics-Exact, queued_jobs_lem}
use dart_edge.JobPool.Activity.{metrics_bounds}
use dart_edge.JobPool.Identity.{occurrences, unsent, held, id_unique, store_result}

abbrev Pool : Type 0
Pool = NativeJobPool ℕ ℕ ℕ

abbrev Action : Type 0
Action = Event ℕ ℕ ℕ

-- Two workers, a channel for four jobs, no Dart port.
abbrev fresh : Pool
fresh = record {
  sender = true;
  channel = [];
  receivers = 2;
  results = [];
  counters = record {
    worker_count = 2;
    max_queue_size = 4;
    submitted_jobs = 0;
    accepted_jobs = 0;
    rejected_queue_full_jobs = 0;
    rejected_closed_jobs = 0;
    started_jobs = 0;
    completed_success_jobs = 0;
    completed_error_jobs = 0;
    queued_jobs = 0;
    active_jobs = 0;
    max_observed_queued_jobs = 0;
    max_observed_active_jobs = 0;
    completion_post_failed_jobs = 0;
  };
  completion_port = 0;
  next_job_id = 1;
}

fresh_lem : new_with_completion 2 4 0 ≡ ok fresh
unfolding new_with_completion new_counters
fresh_lem = refl

abbrev fine : Outcome ℕ ℕ
fine = record { result = some (ok 42); posted = true; spurious = false }

-- Caller `i` makes `n` steps; so does worker `i`.
abbrev caller : ℕ → ℕ → List Action
caller i n = replicate n (submits i false)

abbrev worker : ℕ → ℕ → List Action
worker i n = replicate n (works i fine)

-- One job from end to end.
abbrev one_job : List Action
one_job = calls 21 ∷ caller 0 7 ++ worker 0 11

one_job_runs :
    let s = run (start fresh) one_job in
    (s.callers ≡ returned (ok 1) ∷ []) × (Map.get 1 s.pool.results ≡ some (ok 42))
unfolding run start submit_step worker_step Map.get Map.insert
one_job_runs = (refl, refl)

metrics-Exact_example : Exact (run (start fresh) one_job).pool
unfolding run start submit_step worker_step
metrics-Exact_example =
    metrics-Exact 2 4 0 fresh one_job fresh_lem (record { callers = refl; workers = refl })

-- Two callers have sent their jobs and stop; two workers subtract both jobs; then a caller adds its
-- own, and reads 2 ^ 64 - 1 as the highest number of queued jobs.
abbrev early : List Action
early = calls 1 ∷ calls 2 ∷ caller 0 3 ++ caller 1 3 ++ worker 0 2 ++ worker 1 2

queued_jobs_lem_example : (metrics (run (start fresh) early).pool).queued_jobs ≡ word_max - 1
unfolding run start submit_step worker_step
queued_jobs_lem_example = queued_jobs_lem 2 4 0 fresh early fresh_lem (omega arith)

-- When all has come to rest, the observed maximum stays there, over a channel for four jobs.
abbrev late : List Action
late = early ++ caller 0 4 ++ caller 1 4 ++ worker 0 9 ++ worker 1 9

late_maximum : (metrics (run (start fresh) late).pool).max_observed_queued_jobs ≡ word_max
unfolding run start submit_step worker_step metrics snapshot Map.get Map.insert
late_maximum = refl

metrics_bounds_example :
    let s = run (start fresh) early in
    (length s.pool.channel ≤ 4)
    × ((metrics s.pool).active_jobs ≤ 2)
    × ((metrics s.pool).max_observed_active_jobs ≤ 2)
metrics_bounds_example = metrics_bounds 2 4 0 fresh early (omega arith) fresh_lem

id_unique_example :
    let s = run (start fresh) early in
    occurrences 1 s.pool (total (unsent 1) s.callers) (total (held 1) s.workers) ≤ 1
id_unique_example = id_unique 1 2 4 0 fresh early (omega arith) fresh_lem

-- One job, up to the point where its result is stored.
abbrev almost : List Action
almost = calls 21 ∷ caller 0 7 ++ worker 0 8

store_result_example :
    let s = run (start fresh) almost in
    (poll s.pool 1 ≡ pending)
    × ((take_result s.pool 1).1 ≡ none)
    × ((take_result (step s (works 0 fine)).pool 1).1 ≡ some (ok 42))
unfolding run start submit_step worker_step
store_result_example = store_result 1 2 4 0 fresh almost 0 (ok 42) fine (omega arith) fresh_lem refl

-- A closed pool with one job in its channel.
abbrev closing : Pool
closing = record fresh { sender = false; channel = (7, 5) ∷ [] }
