-- ===== src/JobPool/Balance.antt =====
-- What the counters of job_pool.rs owe to the threads: each thread between two of its actions
-- stands for a job that one counter has and another has not yet.
use dart_edge.Base.{ℕ, ◌+◌, ◌%◌, ◌≤◌, ◌<◌, ◌≡◌, Bool, [], ◌∷◌, arith, length, length-append}
use dart_edge.Base.Words.{word}
use dart_edge.Base.Result.{ok, err}
use dart_edge.JobPool.Pool.{NativeJobPool, queue_full, closed}
use dart_edge.JobPool.Submit.{
  Submit, entered, numbering, sending, accepting, queueing, rejecting, submit_step,
}
use dart_edge.JobPool.Worker.{
  Worker, receiving, dequeueing, starting, activating, handling, completing, storing, deactivating,
  exited, crashed, worker_step, Outcome,
}

-- Submitted, and neither accepted nor rejected yet.
abbrev pub owes_outcome : {I : Type 0} → Submit I → ℕ
owes_outcome (numbering _) = 1
owes_outcome (sending _ _) = 1
owes_outcome (accepting _) = 1
owes_outcome (rejecting _) = 1
owes_outcome _ = 0

-- Sent, and not counted as accepted yet.
abbrev pub owes_accept : {I : Type 0} → Submit I → ℕ
owes_accept (accepting _) = 1
owes_accept _ = 0

-- Sent, and not counted as queued yet.
abbrev pub owes_queue : {I : Type 0} → Submit I → ℕ
owes_queue (accepting _) = 1
owes_queue (queueing _) = 1
owes_queue _ = 0

module _ {I O E : Type 0} where
  -- Received, and still counted as queued.
  abbrev pub owes_dequeue : Worker I O E → ℕ
  owes_dequeue (dequeueing _ _) = 1
  owes_dequeue _ = 0

  -- Received, and not counted as started yet.
  abbrev pub owes_start : Worker I O E → ℕ
  owes_start (dequeueing _ _) = 1
  owes_start (starting _ _) = 1
  owes_start _ = 0

  -- Counted as active; a worker that crashed stays so.
  abbrev pub is_active : Worker I O E → ℕ
  is_active (Worker.measuring _ _ _) = 1
  is_active (Worker.raising _ _ _ _) = 1
  is_active (handling _ _) = 1
  is_active (completing _ _) = 1
  is_active (storing _ _) = 1
  is_active (deactivating _) = 1
  is_active crashed = 1
  is_active _ = 0

  -- Started, and not counted as completed.
  abbrev pub owes_complete : Worker I O E → ℕ
  owes_complete (activating _ _) = 1
  owes_complete (Worker.measuring _ _ _) = 1
  owes_complete (Worker.raising _ _ _ _) = 1
  owes_complete (handling _ _) = 1
  owes_complete (completing _ _) = 1
  owes_complete crashed = 1
  owes_complete _ = 0

  -- Holds the receiving end of the channel.
  abbrev pub is_live : Worker I O E → ℕ
  is_live exited = 0
  is_live crashed = 0
  is_live _ = 1

-- The sums over all threads.
pub record Tally : Type 0 where
  pub outcome : ℕ
  pub accept : ℕ
  pub queue : ℕ
  pub dequeue : ℕ
  pub start : ℕ
  pub active : ℕ
  pub complete : ℕ
  pub live : ℕ

-- How the counters, the channel and the threads agree, up to the wrap-around of a word.
pub record Balance {I O E : Type 0} (p : NativeJobPool I O E) (t : Tally) : Type 0 where
  pub submitted :
      p.submitted_jobs
      ≡ (p.accepted_jobs + p.rejected_queue_full_jobs + p.rejected_closed_jobs + t.outcome) % word
  pub accepted :
      (p.accepted_jobs + t.accept) % word ≡ (p.started_jobs + length p.channel + t.start) % word
  pub queued : (p.queued_jobs + t.queue) % word ≡ (length p.channel + t.dequeue) % word
  pub started :
      p.started_jobs ≡ (p.completed_success_jobs + p.completed_error_jobs + t.complete) % word
  pub active : p.active_jobs ≡ t.active % word
  pub receivers : p.receivers ≡ t.live
  pub accepted_word : p.accepted_jobs < word
  pub queued_word : p.queued_jobs < word
  pub bounded : length p.channel ≤ p.max_queue_size

abbrev pub with_caller : {I : Type 0} → Submit I → Tally → Tally
with_caller c t = record t {
  outcome = owes_outcome c + t.outcome;
  accept = owes_accept c + t.accept;
  queue = owes_queue c + t.queue;
}

abbrev pub with_worker : {I O E : Type 0} → Worker I O E → Tally → Tally
with_worker w t = record t {
  dequeue = owes_dequeue w + t.dequeue;
  start = owes_start w + t.start;
  active = is_active w + t.active;
  complete = owes_complete w + t.complete;
  live = is_live w + t.live;
}

module _ {I O E : Type 0} where
  pub submit_step-Balance :
      (b : Bool) (p : NativeJobPool I O E) (c : Submit I) (t : Tally)
      → Balance p (with_caller c t)
      → Balance (submit_step b p c).0 (with_caller (submit_step b p c).1 t)
  unfolding submit_step
  submit_step-Balance b p (entered input) t h = ground arith
  submit_step-Balance b p (sending job_id input) t h =
      ground (arith, length-append p.channel ((job_id, input) ∷ []))
  submit_step-Balance b p (rejecting queue_full) t h = ground arith
  submit_step-Balance b p (rejecting closed) t h = ground arith
  submit_step-Balance b p _ t h = ground arith

  pub worker_step-Balance :
      (o : Outcome O E) (p : NativeJobPool I O E) (w : Worker I O E) (t : Tally)
      → Balance p (with_worker w t)
      → Balance (worker_step o p w).0 (with_worker (worker_step o p w).1 t)
  unfolding worker_step
  worker_step-Balance o p receiving t h = ground arith
  worker_step-Balance o p (completing job_id (ok r)) t h = ground arith
  worker_step-Balance o p (completing job_id (err r)) t h = ground arith
  worker_step-Balance o p _ t h = ground arith
