-- ===== src/Tests/Completions.antt =====
-- The theorems on the completions of sessions, at two sessions of a job.
use gddp_runtime.Prelude.{
  ℕ, String, false, Option, none, some, [], ◌∷◌, All, ok, ◌≡◌, inl, inr, refl,
}
use gddp_runtime.Prelude.Text.{strip, lstrip, rstrip, is_space}
use gddp_runtime.Heartbeat.Store.{Db, SessionRow, find}
use gddp_runtime.Heartbeat.Sessions.{
  Tick, new_session, Finalization, finalize_executor_session_dispatch,
}
use gddp_runtime.Heartbeat.Sessions.Finalize.{finalize_executor_session_dispatch_once}
use gddp_runtime.Heartbeat.Completion.{
  Submission, CompletionDecision, submit_completion, submit_named, submit_identified,
  compare_completion, normalize_digest, is_digest, found_session, holds, quarantine_completion,
  conflict_reason,
}
use gddp_runtime.Heartbeat.Completion.Held.{IsHeldAs, IsFree}
use gddp_runtime.Heartbeat.Completion.FirstWins.{submit_completion-IsHeldAs}

abbrev tick : ℕ → Tick
tick now = record { ts = "20260101"; now = now }

abbrev digest_a : String
digest_a = "aaaaaaaaaaaaaaaaaaaaaaaaaaaaaaaaaaaaaaaaaaaaaaaaaaaaaaaaaaaaaaaa"

abbrev digest_b : String
digest_b = "bbbbbbbbbbbbbbbbbbbbbbbbbbbbbbbbbbbbbbbbbbbbbbbbbbbbbbbbbbbbbbbb"

abbrev session_of : String → String → SessionRow
session_of id attempt = record {
  session_db_id = id;
  job_id = "job_1";
  executor = "jules";
  session_id = attempt;
  execution_attempt_id = attempt;
  attempt_index = 0;
  state = "running";
  expected_base_commit_sha = none;
  created_at = 1;
  updated_at = 1;
  error = none;
  result_commit_sha = none;
  patch_path = none;
  attempt_dir = none;
  completion_id = none;
  completion_digest_sha256 = none;
  completion_quarantine_reason = none;
  evidence_manifest_path = none;
}

abbrev holder : SessionRow
holder = record (session_of "ses_1" "job_1:attempt:0") {
  completion_id = some "done_1";
  completion_digest_sha256 = some digest_a;
  result_commit_sha = some "c1";
}

abbrev newcomer : SessionRow
newcomer = session_of "ses_2" "job_1:attempt:1"

abbrev db : Db
db = record {
  events = [];
  jobs = [];
  queue_records = [];
  sessions = holder ∷ newcomer ∷ [];
  results = [];
}

-- The second session submits the first one's completion with another digest.
abbrev conflict : Submission
conflict = record {
  session_db_id = "ses_2";
  completion_id = some "done_1";
  completion_digest_sha256 = some digest_b;
  result_commit_sha = some "c2";
  evidence_manifest_path = none;
  in_transaction = false;
  now = 7;
}

abbrev small : String → String
small text = text

abbrev quoted : Option String → String
quoted none = "None"
quoted (some text) = text

abbrev outcome : Db × CompletionDecision
outcome =
    quarantine_completion
      (conflict_reason small quoted "done_1" holder digest_a newcomer digest_b conflict) holder
      newcomer digest_b conflict db

submitted : submit_completion small quoted conflict db ≡ ok outcome
unfolding submit_completion submit_named submit_identified compare_completion normalize_digest
    is_digest found_session holds find strip lstrip rstrip is_space
submitted = refl

newcomer-IsFree : All (IsFree "ses_2" (strip "done_1")) db.sessions
newcomer-IsFree = (inl refl, (inr (inl refl), tt))

holder_found : find (holds "done_1") db.sessions ≡ some holder
unfolding find holds
holder_found = refl

submit_completion-IsHeldAs_example : IsHeldAs "done_1" holder outcome.0
submit_completion-IsHeldAs_example =
    submit_completion-IsHeldAs small quoted "done_1" holder db conflict "done_1" outcome
      holder_found refl newcomer-IsFree submitted

abbrev to_state : String → Finalization
to_state state = record {
  state = state;
  executor = none;
  session_id = some "remote_1";
  expected_base_commit_sha = none;
  error = none;
  attempt_dir = none;
}

abbrev reserved : Db
reserved = record db {
  sessions =
      new_session (tick 1) "job_1" "jules" "job_1:attempt:0" (some "b0") 0 "dispatching" none ∷ [];
}

finalize_executor_session_dispatch_once_example :
    finalize_executor_session_dispatch 9 "ses_20260101"
      (to_state "dispatch_failed")
      (finalize_executor_session_dispatch 2 "ses_20260101" (to_state "dispatched") reserved).0
    ≡ (
      (finalize_executor_session_dispatch 2 "ses_20260101" (to_state "dispatched") reserved).0,
      false,
    )
finalize_executor_session_dispatch_once_example =
    finalize_executor_session_dispatch_once 2 "ses_20260101" (to_state "dispatched") refl 9
      (to_state "dispatch_failed") reserved
