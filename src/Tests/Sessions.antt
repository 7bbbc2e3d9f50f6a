-- ===== src/Tests/Sessions.antt =====
-- The theorems on the jobs, their queue and their sessions, at a small database.
use gddp_runtime.Heartbeat.Sessions.Budgets.{
  at_attempt, at_plumbing, allocate_retry_attempt-bounded, allocate_plumbing_retry-bounded,
}
use gddp_runtime.Prelude.{
  map, ℕ, ◌+◌, ◌≤◌, none, some, List, [], ◌∷◌, ◌++◌, All, or_else, ◌≡◌, inr, refl, arith,
}
use gddp_runtime.Prelude.Decimal.{show}
use gddp_runtime.Heartbeat.Graph.{NodeRow, node_status}
use gddp_runtime.Heartbeat.Store.{Db, JobRow, SessionRow, at, find, set_if, count}
use gddp_runtime.Heartbeat.Recorder.{
  mark_job_running, mark_job_failed, mark_job_cancelled, mark_jobs_awaiting_review,
  reconcile_reviewed_jobs,
}
use gddp_runtime.Heartbeat.Recorder.Mirror.{IsMirrored, transitions-IsMirrored}
use gddp_runtime.Heartbeat.Recorder.Drain.{IsDrained, reconcile_reviewed_jobs-IsDrained}
use gddp_runtime.Heartbeat.Sessions.{
  Tick, allocate_retry_attempt, allocate_plumbing_retry, new_session, execution_attempt_id,
  recorded_base_commit_sha, filled, insert_executor_session, first_based, earlier, based, job_base,
  session_base,
}
use gddp_runtime.Heartbeat.Sessions.Attempts.{allocate_retry_attempt-base}

abbrev job : JobRow
job = record {
  job_id = "job_1";
  created_at = at 1;
  event_id = "evt_1";
  project_id = "site";
  repo = "acme/site";
  node_id = "setup";
  job_type = "execute";
  executor = "jules";
  queue_state = "awaiting_review";
  title = "Set up";
  goal = "";
  why = "";
  constraints = [];
  acceptance_criteria = [];
  priority = "medium";
  status = "awaiting_review";
  attempt = 0;
  max_attempts = 3;
  plumbing_attempt = 0;
  artifacts_dir = "artifacts/job_1";
  required_artifacts = [];
  previous_findings = none;
  expected_base_commit_sha = none;
}

abbrev tick : ℕ → Tick
tick now = record { ts = "20260101"; now = now }

abbrev db : Db
db = record {
  events = [];
  jobs = job ∷ [];
  queue_records =
      record {
        queue_item_id = "qi_1";
        job_id = "job_1";
        queue = "awaiting_review";
        available_at = 1;
      }
      ∷ [];
  sessions =
      new_session (tick 1) "job_1" "jules" "job_1:attempt:0" (some "b0") 0 "failed" none ∷ [];
  results = [];
}

db-IsMirrored : IsMirrored db
db-IsMirrored = record { mirrored = ((refl, (inr refl, tt)), tt) }

transitions-IsMirrored_example :
    IsMirrored (mark_job_running "job_1" db)
    × IsMirrored (mark_job_failed "job_1" db)
    × IsMirrored (mark_job_cancelled "job_1" db)
    × IsMirrored (mark_jobs_awaiting_review ("job_1" ∷ []) db)
transitions-IsMirrored_example = transitions-IsMirrored db "job_1" ("job_1" ∷ []) db-IsMirrored

abbrev finished : List NodeRow
finished = record { id = "setup"; status = some "complete" } ∷ []

reconcile_reviewed_jobs-IsDrained_example :
    All
      (IsDrained (node_status finished) "site")
      (reconcile_reviewed_jobs "site" finished db).0.jobs
reconcile_reviewed_jobs-IsDrained_example = reconcile_reviewed_jobs-IsDrained "site" finished db

-- A retry without a base of its own takes the one of the first session.
abbrev retried : JobRow
retried = record job { attempt = 1; expected_base_commit_sha = some "b0" }

abbrev retried_db : Db
retried_db = record db {
  jobs = record job { attempt = 1 } ∷ [];
  sessions =
      db.sessions
      ++ new_session (tick 2) "job_1" "jules" (execution_attempt_id "job_1" 1) (some "b0") 1
          "dispatching" none
        ∷ [];
}

allocated :
    allocate_retry_attempt (tick 2) job "jules" none none db
    ≡ some (retried, "ses_20260101", retried_db)
unfolding allocate_retry_attempt recorded_base_commit_sha filled insert_executor_session first_based
    earlier based job_base session_base find set_if new_session
allocated = refl

allocate_retry_attempt-bounded_example :
    (retried.attempt ≡ job.attempt + 1)
    × (retried.attempt ≤ job.max_attempts)
    × (count (at_attempt "job_1" 1) retried_db.jobs ≡ count (at_attempt "job_1" 1) db.jobs + 1)
    × (map (λ (j : JobRow). j.plumbing_attempt) retried_db.jobs
        ≡ map (λ (j : JobRow). j.plumbing_attempt) db.jobs)
    × (retried_db.sessions
        ≡ db.sessions
          ++ new_session
              (tick 2)
              "job_1"
              "jules"
              (execution_attempt_id "job_1" 1)
              (some "b0")
              1
              "dispatching"
              none
            ∷ [])
    × (allocate_retry_attempt (tick 3) job "codex" (some "b1") none retried_db ≡ none)
allocate_retry_attempt-bounded_example =
    allocate_retry_attempt-bounded (tick 2) (tick 3) job "jules" "codex" none (some "b1") none none
      db retried_db retried "ses_20260101" allocated

sessions_within :
    All (λ (s : SessionRow). s.job_id ≡ job.job_id → s.attempt_index ≤ job.attempt) db.sessions
unfolding new_session
sessions_within = (λ h. omega arith, tt)

base_recorded : recorded_base_commit_sha db "job_1" ≡ some "b0"
unfolding recorded_base_commit_sha filled first_based earlier based job_base session_base find
    new_session
base_recorded = refl

allocate_retry_attempt-base_example :
    (recorded_base_commit_sha retried_db "job_1" ≡ some "b0")
    × (some "b0" ≡ or_else (filled none) (some "b0"))
allocate_retry_attempt-base_example =
    allocate_retry_attempt-base (tick 2) job "jules" none none db retried_db retried "ses_20260101"
      allocated "b0" sessions_within base_recorded

abbrev replumbed : JobRow
replumbed = record job { plumbing_attempt = 1; expected_base_commit_sha = some "b0" }

abbrev replumbed_db : Db
replumbed_db = record db {
  jobs = record job { plumbing_attempt = 1 } ∷ [];
  sessions =
      db.sessions
      ++ new_session (tick 2) "job_1" "jules" "job_1:attempt:0:plumbing:1" (some "b0") 0
          "dispatching" none
        ∷ [];
}

replumbed_allocated :
    allocate_plumbing_retry (tick 2) job "jules" none db
    ≡ some (replumbed, "ses_20260101", replumbed_db)
unfolding allocate_plumbing_retry recorded_base_commit_sha filled insert_executor_session
    first_based earlier based job_base session_base find set_if new_session execution_attempt_id
    show
replumbed_allocated = refl

allocate_plumbing_retry-bounded_example :
    (replumbed.attempt ≡ job.attempt)
    × (replumbed.plumbing_attempt ≡ job.plumbing_attempt + 1)
    × (replumbed.plumbing_attempt ≤ 3)
    × (count (at_plumbing "job_1" 1) replumbed_db.jobs ≡ count (at_plumbing "job_1" 1) db.jobs + 1)
    × (map (λ (j : JobRow). j.attempt) replumbed_db.jobs ≡ map (λ (j : JobRow). j.attempt) db.jobs)
    × (allocate_plumbing_retry (tick 3) job "codex" (some "b1") replumbed_db ≡ none)
allocate_plumbing_retry-bounded_example =
    allocate_plumbing_retry-bounded (tick 2) (tick 3) job "jules" "codex" none (some "b1") none none
      db replumbed_db replumbed "ses_20260101" replumbed_allocated
