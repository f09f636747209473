-- ===== src/JobPool/Shutdown.antt =====
-- `Drop` of job_pool.rs: a worker that runs on alone after the sender is gone works off the channel
-- and ends, so the `join` in `drop` returns if the handlers do.
use dart_edge.Base.{ℕ, ◌+◌, ◌*◌, ◌≡◌, false, List, [], ◌∷◌, length, some, if◌then◌else◌, ◌==◌}
use dart_edge.Base.Result.{Result}
use dart_edge.JobPool.Pool.{NativeJobPool}
use dart_edge.JobPool.Worker.{
  Worker, receiving, dequeueing, starting, activating, handling, completing, storing, deactivating,
  posting, noting, exited, crashed, worker_step, Outcome,
}

-- The handler returns and no exchange fails for no reason.
abbrev pub Returns : {O E : Type 0} → Outcome O E → Type 0
Returns {O} {E} o = ((r : Result O E) × (o.result ≡ some r)) × (o.spurious ≡ false)

module _ {I O E : Type 0} where
  -- A thread by itself.
  unfoldable pub run_alone :
      NativeJobPool I O E → Worker I O E → List (Outcome O E) → NativeJobPool I O E × Worker I O E
  run_alone p w [] = (p, w)
  run_alone p w (o ∷ os) = let next = worker_step o p w in run_alone next.0 next.1 os

  -- How many actions the worker has left in its round, at most.
  actions : NativeJobPool I O E → Worker I O E → ℕ
  actions p receiving = 1
  actions p noting = 2
  actions p (posting _) = 3
  actions p (deactivating _) = 4
  actions p (storing _ _) = 5
  actions p (completing _ _) = 6
  actions p (handling _ _) = 7
  actions p (Worker.raising _ _ _ current) = if p.max_observed_active_jobs == current then 8 else 9
  actions p (Worker.measuring _ _ _) = 10
  actions p (activating _ _) = 11
  actions p (starting _ _) = 12
  actions p (dequeueing _ _) = 13
  actions p exited = 0
  actions p crashed = 0

  -- The actions that are enough for the worker to end: fourteen for each waiting job, and what is
  -- left of its round.
  pub work_left : NativeJobPool I O E → Worker I O E → ℕ
  unfolding actions
  work_left p w = 14 * length p.channel + actions p w

  -- The worker has ended as it should.
  abbrev pub HasEnded : NativeJobPool I O E × Worker I O E → Type 0
  HasEnded (p, w) = (w ≡ exited) × (p.channel ≡ [])

  abbrev IsSound : NativeJobPool I O E → Worker I O E → Type 0
  IsSound p exited = p.channel ≡ []
  IsSound p crashed = ⊥
  IsSound p _ = Unit
