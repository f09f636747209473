-- ===== src/JobPool/Conservation.antt =====
-- Every run of the pool of job_pool.rs keeps its counters in balance.
use dart_edge.Base.{
  ℕ, ◌≡◌, Bool, List, [], ◌∷◌, arith, total, inl, inr, total-split, total-append, Option-cases,
  get_elem?, set, some,
}
use dart_edge.JobPool.Pool.{take_result, close}
use dart_edge.JobPool.Submit.{Submit, entered, submit_step}
use dart_edge.JobPool.Worker.{Worker, worker_step, Outcome}
use dart_edge.JobPool.System.{
  System, Event, calls, submits, works, takes, drops, submit_at, work_at, step, run,
}
use dart_edge.JobPool.Balance.{
  owes_outcome, owes_accept, owes_queue, owes_dequeue, owes_start, is_active, owes_complete,
  is_live, Tally, Balance, with_caller, with_worker, submit_step-Balance, worker_step-Balance,
}

module _ {I O E : Type 0} where
  abbrev pub tally : List (Submit I) → List (Worker I O E) → Tally
  tally cs ws = record {
    outcome = total owes_outcome cs;
    accept = total owes_accept cs;
    queue = total owes_queue cs;
    dequeue = total owes_dequeue ws;
    start = total owes_start ws;
    active = total is_active ws;
    complete = total owes_complete ws;
    live = total is_live ws;
  }

  -- The counters, the channel and the threads of a system agree.
  abbrev pub IsBalanced : System I O E → Type 0
  IsBalanced s = Balance s.pool (tally s.callers s.workers)

  -- The sums with one caller taken out and another put in its place.
  tally-caller :
      (cs : List (Submit I)) (ws : List (Worker I O E)) (i : ℕ) (c : Submit I)
      → get_elem? cs i ≡ some c
      → (t : Tally) × (tally cs ws ≡ with_caller c t)
        × ((d : Submit I) → tally (set cs i d) ws ≡ with_caller d t)
  tally-caller cs ws i c h =
      let (a, ea, fa) = total-split owes_outcome cs i c h in
      let (b, eb, fb) = total-split owes_accept cs i c h in
      let (q, eq, fq) = total-split owes_queue cs i c h in
      (
        record (tally cs ws) { outcome = a; accept = b; queue = q },
        ground arith,
        λ d. ground (arith, fa d, fb d, fq d),
      )

  tally-worker :
      (cs : List (Submit I)) (ws : List (Worker I O E)) (i : ℕ) (w : Worker I O E)
      → get_elem? ws i ≡ some w
      → (t : Tally) × (tally cs ws ≡ with_worker w t)
        × ((v : Worker I O E) → tally cs (set ws i v) ≡ with_worker v t)
  tally-worker cs ws i w h =
      let (a, ea, fa) = total-split owes_dequeue ws i w h in
      let (b, eb, fb) = total-split owes_start ws i w h in
      let (c, ec, fc) = total-split is_active ws i w h in
      let (d, ed, fd) = total-split owes_complete ws i w h in
      let (l, el, fl) = total-split is_live ws i w h in
      (
        record (tally cs ws) { dequeue = a; start = b; active = c; complete = d; live = l },
        ground arith,
        λ v. ground (arith, fa v, fb v, fc v, fd v, fl v),
      )

  submit_at-IsBalanced :
      (i : ℕ) (b : Bool) (s : System I O E) → IsBalanced s → IsBalanced (submit_at i b s)
  unfolding submit_at
  submit_at-IsBalanced i b s h = elim (Option-cases (get_elem? s.callers i)) [
    | inl e ↦ rw (e, submit_at) h
    | inr (c, e) ↦
        let (t, before, after) = tally-caller s.callers s.workers i c e in
        rw (e, submit_at)
          (rw (after (submit_step b s.pool c).1)
            (submit_step-Balance b s.pool c t (rw before at h)))
  ]

  work_at-IsBalanced :
      (i : ℕ) (o : Outcome O E) (s : System I O E) → IsBalanced s → IsBalanced (work_at i o s)
  unfolding work_at
  work_at-IsBalanced i o s h = elim (Option-cases (get_elem? s.workers i)) [
    | inl e ↦ rw (e, work_at) h
    | inr (w, e) ↦
        let (t, before, after) = tally-worker s.callers s.workers i w e in
        rw (e, work_at)
          (rw (after (worker_step o s.pool w).1)
            (worker_step-Balance o s.pool w t (rw before at h)))
  ]

  pub step-IsBalanced : (s : System I O E) (e : Event I O E) → IsBalanced s → IsBalanced (step s e)
  unfolding step take_result close
  step-IsBalanced s (calls input) h = ground (
    arith,
    total-append owes_outcome s.callers (entered input ∷ []),
    total-append owes_accept s.callers (entered input ∷ []),
    total-append owes_queue s.callers (entered input ∷ []),
  )
  step-IsBalanced s (submits i b) h = submit_at-IsBalanced i b s h
  step-IsBalanced s (works i o) h = work_at-IsBalanced i o s h
  step-IsBalanced s (takes job_id) h = ground arith
  step-IsBalanced s drops h = ground arith

  pub run-IsBalanced :
      (s : System I O E) (es : List (Event I O E)) → IsBalanced s → IsBalanced (run s es)
  unfolding run
  run-IsBalanced s [] h = h
  run-IsBalanced s (e ∷ es) h = run-IsBalanced (step s e) es (step-IsBalanced s e h)
