-- ===== src/JobPool/System.antt =====
-- job_pool.rs: the pool with its threads. A run is a list of events, each one action of one thread
-- or one call of an operation that takes a single lock, in any order.
use dart_edge.Base.{
  ℕ, Bool, true, false, List, [], ◌∷◌, ◌++◌, none, some, get_elem?, set, replicate, all,
  if◌then◌else◌,
}
use dart_edge.JobPool.Pool.{NativeJobPool, take_result, close}
use dart_edge.JobPool.Submit.{Submit, entered, returned, submit_step}
use dart_edge.JobPool.Worker.{Worker, receiving, worker_step, Outcome}

pub record System (I O E : Type 0) : Type 0 where
  pub pool : NativeJobPool I O E
  pub callers : List (Submit I)
  pub workers : List (Worker I O E)

pub data Event (I O E : Type 0) : Type 0 where
  calls : I → Event I O E
  submits : ℕ → Bool → Event I O E
  works : ℕ → Outcome O E → Event I O E
  takes : ℕ → Event I O E
  drops : Event I O E

abbrev pub is_returned : {I : Type 0} → Submit I → Bool
is_returned (returned r) = true
is_returned _ = false

module _ {I O E : Type 0} where
  -- The threads that `new_with_completion` spawns.
  unfoldable pub start : NativeJobPool I O E → System I O E
  start p = record { pool = p; callers = []; workers = replicate p.receivers receiving }

  unfoldable pub submit_at : ℕ → Bool → System I O E → System I O E
  submit_at i spurious s = elim (get_elem? s.callers i) [
    | none ↦ s
    | some c ↦
        let next = submit_step spurious s.pool c in
        record s { pool = next.0; callers = set s.callers i next.1 }
  ]

  unfoldable pub work_at : ℕ → Outcome O E → System I O E → System I O E
  work_at i o s = elim (get_elem? s.workers i) [
    | none ↦ s
    | some w ↦
        let next = worker_step o s.pool w in
        record s { pool = next.0; workers = set s.workers i next.1 }
  ]

  -- A call of `submit` borrows the pool, so it neither begins nor runs once the pool is dropped.
  unfoldable pub step : System I O E → Event I O E → System I O E
  unfolding submit_at work_at take_result close
  step s (calls input) =
      if s.pool.sender then record s { callers = s.callers ++ entered input ∷ [] } else s
  step s (submits i spurious) = submit_at i spurious s
  step s (works i o) = work_at i o s
  step s (takes job_id) = record s { pool = (take_result s.pool job_id).0 }
  step s drops = if all is_returned s.callers then record s { pool = close s.pool } else s

  unfoldable pub run : System I O E → List (Event I O E) → System I O E
  unfolding step
  run s [] = s
  run s (e ∷ es) = run (step s e) es
