-- ===== src/JobPool/Identity.antt =====
-- Job ids of job_pool.rs: an id is in one place at a time, so no result overwrites another.
use dart_edge.Base.{
  ℕ, ◌+◌, ◌≤◌, ◌<◌, ◌≡◌, refl, Bool, List, [], ◌∷◌, ◌++◌, arith, length, total, total-split,
  total-append, total-replicate, get_elem?, some, none, inl, inr, Option-cases, ltb, ◌==◌,
  if◌then◌else◌, is_some,
}
use dart_edge.Base.Keys.{nat_eq}
use dart_edge.Base.Map
use dart_edge.Base.Map.{Map, get-insert, get-remove}
use dart_edge.Base.Words.{word}
use dart_edge.Base.Result.{Result, ok, err}
use dart_edge.JobPool.Pool.{
  NativeJobPool, new_with_completion, take_result, close, poll, pending, queue_full, closed,
}
use dart_edge.JobPool.Submit.{Submit, entered, sending, rejecting, submit_step}
use dart_edge.JobPool.Worker.{
  Worker, receiving, dequeueing, starting, activating, handling, completing, storing, worker_step,
  Outcome,
}
use dart_edge.JobPool.System.{
  System, Event, calls, submits, works, takes, drops, start, submit_at, work_at, step, run,
}

abbrev pub one_if : Bool → ℕ
one_if b = if b then 1 else 0

module _ (k : ℕ) where
  -- A call of `submit` holds the id and has not sent it.
  abbrev pub unsent : {I : Type 0} → Submit I → ℕ
  unsent (sending job_id _) = one_if (job_id == k)
  unsent _ = 0

  abbrev pub queued : {I : Type 0} → List (ℕ × I) → ℕ
  queued [] = 0
  queued ((job_id, _) ∷ rest) = one_if (job_id == k) + queued rest

  -- A worker has received the job and not stored its result.
  abbrev pub held : {I O E : Type 0} → Worker I O E → ℕ
  held (dequeueing job_id _) = one_if (job_id == k)
  held (starting job_id _) = one_if (job_id == k)
  held (activating job_id _) = one_if (job_id == k)
  held (Worker.measuring job_id _ _) = one_if (job_id == k)
  held (Worker.raising job_id _ _ _) = one_if (job_id == k)
  held (handling job_id _) = one_if (job_id == k)
  held (completing job_id _) = one_if (job_id == k)
  held (storing job_id _) = one_if (job_id == k)
  held _ = 0

  abbrev pub stored : {A : Type 0} → Map ℕ A → ℕ
  stored m = one_if (is_some (Map.get k m))

  queued-append :
      {I : Type 0} (xs : List (ℕ × I)) (j : ℕ) (x : I)
      → queued (xs ++ (j, x) ∷ []) ≡ queued xs + one_if (j == k)
  queued-append [] j x = omega arith
  queued-append ((i, y) ∷ xs) j x = omega (arith, queued-append xs j x)

  stored-insert-le :
      {A : Type 0} (j : ℕ) (v : A) (m : Map ℕ A)
      → stored (Map.insert j v m) ≤ one_if (j == k) + stored m
  stored-insert-le j v m = ground (arith, get-insert j k v m)

  stored-remove-le : {A : Type 0} (j : ℕ) (m : Map ℕ A) → stored (Map.remove j m) ≤ stored m
  stored-remove-le j m = ground (arith, get-remove j k m)

  -- How often the id occurs: `u` times with the callers and `h` times with the workers.
  abbrev pub occurrences : {I O E : Type 0} → NativeJobPool I O E → ℕ → ℕ → ℕ
  occurrences p u h = u + queued p.channel + h + stored p.results

  -- An id that has been issued occurs at most once, and one that has not does not occur.
  pub record IsFresh {I O E : Type 0} (p : NativeJobPool I O E) (u h : ℕ) : Type 0 where
    pub issued : occurrences p u h ≤ one_if (ltb k p.next_job_id)

  module _ {I O E : Type 0} where
    submit_step-IsFresh :
        (b : Bool) (p : NativeJobPool I O E) (c : Submit I) (u h : ℕ)
        → p.next_job_id + 1 < word
        → IsFresh p (unsent c + u) h
        → IsFresh (submit_step b p c).0 (unsent (submit_step b p c).1 + u) h
    unfolding submit_step
    submit_step-IsFresh b p (sending job_id input) u h w f =
        ground (arith, queued-append p.channel job_id input)
    submit_step-IsFresh b p (rejecting queue_full) u h w f = ground arith
    submit_step-IsFresh b p (rejecting closed) u h w f = ground arith
    submit_step-IsFresh b p _ u h w f = ground arith

    worker_step-IsFresh :
        (o : Outcome O E) (p : NativeJobPool I O E) (w : Worker I O E) (u h : ℕ)
        → IsFresh p u (held w + h)
        → IsFresh (worker_step o p w).0 u (held (worker_step o p w).1 + h)
    unfolding worker_step
    worker_step-IsFresh o p receiving u h f = ground arith
    worker_step-IsFresh o p (completing j (ok x)) u h f = ground arith
    worker_step-IsFresh o p (completing j (err x)) u h f = ground arith
    worker_step-IsFresh o p (storing j r) u h f = ground (arith, stored-insert-le j r p.results)
    worker_step-IsFresh o p _ u h f = ground arith

    submit_step-next :
        (b : Bool) (p : NativeJobPool I O E) (c : Submit I)
        → p.next_job_id + 1 < word
        → (submit_step b p c).0.next_job_id ≤ p.next_job_id + 1
    unfolding submit_step
    submit_step-next b p (rejecting queue_full) w = ground arith
    submit_step-next b p (rejecting closed) w = ground arith
    submit_step-next b p _ w = ground arith

    worker_step-next :
        (o : Outcome O E) (p : NativeJobPool I O E) (w : Worker I O E)
        → (worker_step o p w).0.next_job_id ≡ p.next_job_id
    unfolding worker_step
    worker_step-next o p receiving = ground arith
    worker_step-next o p (completing j (ok x)) = ground arith
    worker_step-next o p (completing j (err x)) = ground arith
    worker_step-next o p _ = ground arith

    -- The id occurs at most once in the whole system, and not at all before it is issued.
    abbrev pub IsUnique : System I O E → Type 0
    IsUnique s = IsFresh s.pool (total unsent s.callers) (total held s.workers)

    step-IsUnique :
        (s : System I O E) (e : Event I O E)
        → s.pool.next_job_id + 1 < word
        → IsUnique s
        → IsUnique (step s e) × ((step s e).pool.next_job_id ≤ s.pool.next_job_id + 1)
    unfolding step submit_at work_at take_result close
    step-IsUnique s (calls input) w f =
        ground (arith, total-append unsent s.callers (entered input ∷ []))
    step-IsUnique s (submits i b) w f = elim (Option-cases (get_elem? s.callers i)) [
      | inl e ↦ rw (e, submit_at) (f, omega arith)
      | inr (c, e) ↦
          let (r, before, after) = total-split unsent s.callers i c e in
          rw (e, submit_at)
            (
              rw (after (submit_step b s.pool c).1)
                  (submit_step-IsFresh b s.pool c r (total held s.workers) w (rw before at f)),
              submit_step-next b s.pool c w,
            )
    ]
    step-IsUnique s (works i o) w f = elim (Option-cases (get_elem? s.workers i)) [
      | inl e ↦ rw (e, work_at) (f, omega arith)
      | inr (v, e) ↦
          let (r, before, after) = total-split held s.workers i v e in
          rw (e, work_at)
            (
              rw (after (worker_step o s.pool v).1)
                  (worker_step-IsFresh o s.pool v (total unsent s.callers) r (rw before at f)),
              omega (arith, worker_step-next o s.pool v),
            )
    ]
    step-IsUnique s (takes j) w f = ground (arith, stored-remove-le j s.pool.results)
    step-IsUnique s drops w f = ground arith

    run-IsUnique :
        (s : System I O E) (es : List (Event I O E))
        → s.pool.next_job_id + length es < word
        → IsUnique s
        → IsUnique (run s es)
    unfolding run
    run-IsUnique s [] w f = f
    run-IsUnique s (e ∷ es) w f =
        let next = step-IsUnique s e (omega arith) f in
        run-IsUnique (step s e) es (omega (arith, next.1)) next.0

    start-IsUnique :
        (workers queue port : ℕ) (p : NativeJobPool I O E)
        → new_with_completion workers queue port ≡ ok p
        → IsUnique (start p) × (p.next_job_id ≡ 1)
    unfolding new_with_completion start Map.get
    start-IsUnique workers queue port p h =
        let w : Worker I O E = receiving in ground (arith, total-replicate held p.receivers w refl)

    -- After any run of a new pool of fewer than 2 ^ 64 - 1 events, a job id occurs at most once
    -- among the calls of `submit` that have not sent it, the channel, the workers that have not
    -- stored its result, and the results.
    pub id_unique :
        (workers queue port : ℕ) (p : NativeJobPool I O E) (es : List (Event I O E))
        → length es + 1 < word
        → new_with_completion workers queue port ≡ ok p
        → let s = run (start p) es in
          occurrences s.pool (total unsent s.callers) (total held s.workers) ≤ 1
    id_unique workers queue port p es w h =
        let (f, first) = start-IsUnique workers queue port p h in
        let g = run-IsUnique (start p) es (unfold start in omega (arith, first)) f in
        ground (arith, g.issued)

    -- After any run of a new pool of fewer than 2 ^ 64 - 1 events, when a worker is about to store the
    -- result of a job, the pool has no result under that id and reports the job as pending; right
    -- after, it hands out that very result.
    pub store_result :
        (workers queue port : ℕ) (p : NativeJobPool I O E) (es : List (Event I O E)) (i : ℕ)
        (result : Result O E) (o : Outcome O E)
        → length es + 1 < word
        → new_with_completion workers queue port ≡ ok p
        → get_elem? (run (start p) es).workers i ≡ some (storing k result)
        → let s = run (start p) es in
          (poll s.pool k ≡ pending)
          × ((take_result s.pool k).1 ≡ none)
          × ((take_result (step s (works i o)).pool k).1 ≡ some result)
    unfolding poll take_result step work_at worker_step
    store_result workers queue port p es i result o w h at_store =
        let s = run (start p) es in
        let (r, before, after) = total-split held s.workers i (storing k result) at_store in
        let u = id_unique workers queue port p es w h in
        let absent : Map.get k s.pool.results ≡ none = ground arith in
        (
          rw (absent, poll),
          absent,
          rw (at_store, work_at) (Map.get-insert_self k result s.pool.results),
        )
