-- ===== src/Tests/Returns.antt =====
-- A reviewed job is tried again, at a concrete state.
use gddp_runtime.Verification.Retry.{CriteriaFinding}
use gddp_runtime.Prelude.Text.{strip, lstrip, rstrip, is_space}
use gddp_runtime.Prelude.{true, none, some, [], ◌∷◌, ok, ◌≡◌, refl}
use gddp_runtime.Heartbeat.Store.{Db, with_check, find, order_by, place}
use gddp_runtime.Heartbeat.Sessions.{
  allocate_retry_attempt, insert_executor_session, new_session, recorded_base_commit_sha, job_base,
  filled, finalize_executor_session_dispatch, is_dispatching,
}
use gddp_runtime.Heartbeat.Returns.{
  ReturnHost, redispatched, retry_reviewed_job, retry_found, retry_cell, latest_result,
  redispatch_with_findings, redispatch_allocated, settle_dispatch, after_success, succeeded_as,
  first_result, received_later,
}
use gddp_runtime.Heartbeat.Returns.SameBase.{IsRetried, retry_reviewed_job-IsRetried}
use gddp_runtime.Tests.Samples.{job_in}

abbrev reviewed : Db
reviewed = record {
  events = [];
  jobs =
      record (job_in "awaiting_review") {
        queue_state = "awaiting_review";
        expected_base_commit_sha = some "b0";
        max_attempts = 3;
      }
      ∷ [];
  queue_records = [];
  sessions = [];
  results =
      record {
        result_id = "res_1";
        job_id = "job_1";
        executor = "jules";
        received_at = "2026";
        outcome = "success";
        status = "needs_review";
        patch_path = none;
        summary_path = none;
        logs_path = none;
        acceptance_check = with_check (record {
          receipt_path = some "r.json";
          verification_status = "ok";
          verdict = "fail";
          integrity = none;
          criteria_findings = CriteriaFinding.entry ("footer.html:3" ∷ []) "no footer" ∷ [];
        });
      }
      ∷ [];
}

abbrev pub host : ReturnHost
host = record {
  tick = record { ts = "9"; now = 9 };
  finalized_at = 10;
  preflight_error = λ executor repo. none;
  dispatch = λ job. ok (record {
    success = true;
    issue_url = some "https://jules/9";
    error = none;
    session_ref = none;
    attempt_dir = none;
  });
  meanwhile = λ db. db;
  encode = λ f. f.verdict;
}

tried_again :
    (retry_reviewed_job host "job_1" " the footer is missing " reviewed).1
    ≡ redispatched "ses_9" (some "https://jules/9")
unfolding retry_reviewed_job strip lstrip rstrip is_space retry_found retry_cell latest_result
    first_result received_later order_by place filled recorded_base_commit_sha job_base
    redispatch_with_findings redispatch_allocated allocate_retry_attempt insert_executor_session
    new_session settle_dispatch after_success succeeded_as finalize_executor_session_dispatch
    is_dispatching find
tried_again = refl

retry_reviewed_job-IsRetried_example :
    IsRetried host " the footer is missing " "job_1" reviewed
      (retry_reviewed_job host "job_1" " the footer is missing " reviewed)
retry_reviewed_job-IsRetried_example =
    retry_reviewed_job-IsRetried host " the footer is missing " reviewed "job_1"
