-- ===== src/JobPool/Counters.antt =====
-- job_pool.rs: the atomic counters, their snapshot, and the compare-and-swap loop on a maximum.
-- A counter is the bit pattern of its word, so an addition and a subtraction wrap around.
use dart_edge.Base.{ℕ, ◌&&◌, Bool, not, Option, none, some, ltb, ◌==◌, if◌then◌else◌}

pub record NativeJobPoolCounters : Type 0 where
  pub worker_count : ℕ
  pub max_queue_size : ℕ
  pub submitted_jobs : ℕ
  pub accepted_jobs : ℕ
  pub rejected_queue_full_jobs : ℕ
  pub rejected_closed_jobs : ℕ
  pub started_jobs : ℕ
  pub completed_success_jobs : ℕ
  pub completed_error_jobs : ℕ
  pub queued_jobs : ℕ
  pub active_jobs : ℕ
  pub max_observed_queued_jobs : ℕ
  pub max_observed_active_jobs : ℕ
  pub completion_post_failed_jobs : ℕ

pub record NativeJobPoolMetrics : Type 0 where
  pub worker_count : ℕ
  pub max_queue_size : ℕ
  pub submitted_jobs : ℕ
  pub accepted_jobs : ℕ
  pub rejected_queue_full_jobs : ℕ
  pub rejected_closed_jobs : ℕ
  pub started_jobs : ℕ
  pub completed_success_jobs : ℕ
  pub completed_error_jobs : ℕ
  pub pending_result_count : ℕ
  pub queued_jobs : ℕ
  pub active_jobs : ℕ
  pub max_observed_queued_jobs : ℕ
  pub max_observed_active_jobs : ℕ
  pub completion_post_failed_jobs : ℕ

unfoldable pub new_counters : ℕ → ℕ → NativeJobPoolCounters
new_counters worker_count max_queue_size = record {
  worker_count = worker_count;
  max_queue_size = max_queue_size;
  submitted_jobs = 0;
  accepted_jobs = 0;
  rejected_queue_full_jobs = 0;
  rejected_closed_jobs = 0;
  started_jobs = 0;
  completed_success_jobs = 0;
  completed_error_jobs = 0;
  queued_jobs = 0;
  active_jobs = 0;
  max_observed_queued_jobs = 0;
  max_observed_active_jobs = 0;
  completion_post_failed_jobs = 0;
}

unfoldable pub snapshot : NativeJobPoolCounters → ℕ → NativeJobPoolMetrics
snapshot c pending_result_count = record {
  worker_count = c.worker_count;
  max_queue_size = c.max_queue_size;
  submitted_jobs = c.submitted_jobs;
  accepted_jobs = c.accepted_jobs;
  rejected_queue_full_jobs = c.rejected_queue_full_jobs;
  rejected_closed_jobs = c.rejected_closed_jobs;
  started_jobs = c.started_jobs;
  completed_success_jobs = c.completed_success_jobs;
  completed_error_jobs = c.completed_error_jobs;
  pending_result_count = pending_result_count;
  queued_jobs = c.queued_jobs;
  active_jobs = c.active_jobs;
  max_observed_queued_jobs = c.max_observed_queued_jobs;
  max_observed_active_jobs = c.max_observed_active_jobs;
  completion_post_failed_jobs = c.completion_post_failed_jobs;
}

-- One round of the loop in `update_atomic_max`: the stored value after it, and the value that the
-- next round compares with, if there is a next round. The weak exchange may fail spuriously.
unfoldable pub max_round : ℕ → ℕ → ℕ → Bool → ℕ × Option ℕ
max_round stored candidate current spurious =
    if ltb current candidate
    then (if stored == current && not spurious then (candidate, none) else (stored, some stored))
    else (stored, none)
