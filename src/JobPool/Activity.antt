-- ===== src/JobPool/Activity.antt =====
-- Bounds of job_pool.rs: the channel, the active jobs, and the observed maximum of these.
use dart_edge.Base.{
  ℕ, ◌∙◌, ◌≤◌, ◌<◌, ◌≡◌, refl, Bool, List, [], ◌∷◌, arith, length, total, All, All-set, All-get,
  All-replicate, total-split, total-le-length, length-set, length-replicate, get_elem?, set, some,
  inl, inr, Option-cases,
}
use dart_edge.Base.Words.{word}
use dart_edge.Base.Result.{ok, err}
use dart_edge.JobPool.Counters.{new_counters, snapshot}
use dart_edge.JobPool.Pool.{
  NativeJobPool, new_with_completion, metrics, pending_result_count, take_result, close,
}
use dart_edge.JobPool.Submit.{Submit, submit_step, rejecting}
use dart_edge.JobPool.Pool.{queue_full, closed}
use dart_edge.JobPool.Worker.{
  Worker, receiving, activating, completing, crashed, worker_step, Outcome,
}
use dart_edge.JobPool.System.{
  System, Event, calls, submits, works, takes, drops, start, submit_at, work_at, step, run,
}
use dart_edge.JobPool.Balance.{is_active}
use dart_edge.JobPool.Conservation.{IsBalanced, step-IsBalanced}
use dart_edge.JobPool.Quiescence.{start-IsBalanced}

module _ {I O E : Type 0} where
  -- A worker raises the maximum to no more than `n`.
  abbrev pub Raises : ℕ → Worker I O E → Type 0
  Raises n (Worker.measuring _ _ candidate) = candidate ≤ n
  Raises n (Worker.raising _ _ candidate _) = candidate ≤ n
  Raises n _ = Unit

  is_active-le-one : (w : Worker I O E) → is_active w ≤ 1
  is_active-le-one receiving = omega arith
  is_active-le-one _ = omega arith

  -- With `n` workers and a channel for `m` jobs.
  pub record IsCapped (n m : ℕ) (s : System I O E) : Type 0 where
    pub balanced : IsBalanced s
    pub workers : length s.workers ≡ n
    pub configured_workers : s.pool.worker_count ≡ n
    pub configured_queue : s.pool.max_queue_size ≡ m
    pub observed : s.pool.max_observed_active_jobs ≤ n
    pub raises : All (Raises n) s.workers

  -- A worker that is about to be counted leaves room for itself.
  room :
      (n : ℕ) (ws : List (Worker I O E)) (i : ℕ) (w : Worker I O E)
      → get_elem? ws i ≡ some w
      → is_active w ≡ 0
      → total is_active ws < length ws
  room n ws i w h idle =
      let (r, before, after) = total-split is_active ws i w h in
      let c : Worker I O E = crashed in
      omega
        (arith, after c, total-le-length is_active (set ws i c) is_active-le-one, length-set ws i c)

  worker_step-Raises :
      (n : ℕ) (o : Outcome O E) (p : NativeJobPool I O E) (w : Worker I O E)
      → p.max_observed_active_jobs ≤ n
      → Raises n w
      → (is_active w ≡ 0 → p.active_jobs < n)
      → (Raises n (worker_step o p w).1)
        × ((worker_step o p w).0.max_observed_active_jobs ≤ n)
        × ((worker_step o p w).0.worker_count ≡ p.worker_count)
        × ((worker_step o p w).0.max_queue_size ≡ p.max_queue_size)
  unfolding worker_step
  worker_step-Raises n o p receiving h r a = ground arith
  worker_step-Raises n o p (completing k (ok x)) h r a = ground arith
  worker_step-Raises n o p (completing k (err x)) h r a = ground arith
  worker_step-Raises n o p (activating k x) h r a = ground (arith, a refl)
  worker_step-Raises n o p _ h r a = ground arith

  submit_step-fixed :
      (b : Bool) (p : NativeJobPool I O E) (c : Submit I)
      → ((submit_step b p c).0.worker_count ≡ p.worker_count)
        × ((submit_step b p c).0.max_queue_size ≡ p.max_queue_size)
        × ((submit_step b p c).0.max_observed_active_jobs ≡ p.max_observed_active_jobs)
  unfolding submit_step
  submit_step-fixed b p (rejecting queue_full) = ground arith
  submit_step-fixed b p (rejecting closed) = ground arith
  submit_step-fixed b p _ = ground arith

  submit_at-IsCapped :
      (n m i : ℕ) (b : Bool) (s : System I O E) → IsCapped n m s → IsCapped n m (submit_at i b s)
  unfolding submit_at step
  submit_at-IsCapped n m i b s h =
      let kept = step-IsBalanced s (submits i b) h.balanced in
      elim (Option-cases (get_elem? s.callers i)) [
        | inl e ↦ rw (e, submit_at) h
        | inr (c, e) ↦
            let fixed = submit_step-fixed b s.pool c in
            record {
              balanced = kept;
              workers = rw (e, submit_at) h.workers;
              configured_workers = rw (e, submit_at) (fixed.0 ∙ h.configured_workers);
              configured_queue = rw (e, submit_at) (fixed.1 ∙ h.configured_queue);
              observed = rw (e, submit_at) (rw fixed.2 h.observed);
              raises = rw (e, submit_at) h.raises;
            }
      ]

  work_at-IsCapped :
      (n m i : ℕ) (o : Outcome O E) (s : System I O E)
      → n < word
      → IsCapped n m s
      → IsCapped n m (work_at i o s)
  unfolding work_at step
  work_at-IsCapped n m i o s w h =
      let kept = step-IsBalanced s (works i o) h.balanced in
      elim (Option-cases (get_elem? s.workers i)) [
        | inl e ↦ rw (e, work_at) h
        | inr (v, e) ↦
            let keeps =
              worker_step-Raises n o s.pool v h.observed
                (All-get (Raises n) s.workers i v e h.raises)
                (λ idle.
                  omega (arith, h.balanced.active, h.workers, room n s.workers i v e idle)) in
            record {
              balanced = kept;
              workers =
                  rw (e, work_at) (length-set s.workers i (worker_step o s.pool v).1 ∙ h.workers);
              configured_workers = rw (e, work_at) (keeps.2 ∙ h.configured_workers);
              configured_queue = rw (e, work_at) (keeps.3 ∙ h.configured_queue);
              observed = rw (e, work_at) keeps.1;
              raises =
                  rw (e, work_at)
                    (All-set (Raises n) s.workers i (worker_step o s.pool v).1 h.raises keeps.0);
            }
      ]

  step-IsCapped :
      (n m : ℕ) (s : System I O E) (e : Event I O E)
      → n < word
      → IsCapped n m s
      → IsCapped n m (step s e)
  unfolding step take_result close
  step-IsCapped n m s (calls input) w h =
      let kept = step-IsBalanced s (calls input) h.balanced in ground (arith, kept)
  step-IsCapped n m s (submits i b) w h = submit_at-IsCapped n m i b s h
  step-IsCapped n m s (works i o) w h = work_at-IsCapped n m i o s w h
  step-IsCapped n m s (takes job_id) w h =
      let kept = step-IsBalanced s (takes job_id) h.balanced in ground (arith, kept)
  step-IsCapped n m s drops w h =
      let kept = step-IsBalanced s drops h.balanced in ground (arith, kept)

  pub run-IsCapped :
      (n m : ℕ) (s : System I O E) (es : List (Event I O E))
      → n < word
      → IsCapped n m s
      → IsCapped n m (run s es)
  unfolding run
  run-IsCapped n m s [] w h = h
  run-IsCapped n m s (e ∷ es) w h = run-IsCapped n m (step s e) es w (step-IsCapped n m s e w h)

  start-IsCapped :
      (workers queue port : ℕ) (p : NativeJobPool I O E)
      → new_with_completion workers queue port ≡ ok p
      → IsCapped workers queue (start p)
  unfolding new_with_completion start new_counters
  start-IsCapped workers queue port p h =
      let balanced = start-IsBalanced workers queue port p h in
      let w : Worker I O E = receiving in
      ground (
        arith,
        balanced,
        length-replicate p.receivers w,
        All-replicate (Raises workers) p.receivers w tt,
      )

  -- After any run of a new pool whose worker count is a `usize`, the channel holds at most
  -- `max_queue_size` jobs, and neither the active jobs nor the observed maximum of these is ever
  -- more than the worker count.
  pub metrics_bounds :
      (workers queue port : ℕ) (p : NativeJobPool I O E) (es : List (Event I O E))
      → workers < word
      → new_with_completion workers queue port ≡ ok p
      → let s = run (start p) es in
        (length s.pool.channel ≤ queue)
        × ((metrics s.pool).active_jobs ≤ workers)
        × ((metrics s.pool).max_observed_active_jobs ≤ workers)
  unfolding metrics snapshot pending_result_count
  metrics_bounds workers queue port p es w h =
      let s = run (start p) es in
      let c = run-IsCapped workers queue (start p) es w (start-IsCapped workers queue port p h) in
      omega (
        arith,
        c.balanced.bounded,
        c.configured_queue,
        c.balanced.active,
        c.workers,
        c.observed,
        total-le-length is_active s.workers is_active-le-one,
      )
