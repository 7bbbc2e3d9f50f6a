-- ===== src/Tests/Merges.antt =====
-- A merged pull request whose verdict sends the job back, at a concrete state.
use gddp_runtime.Prelude.Text.{lstrip, rstrip, strip, is_space}
use gddp_runtime.Prelude.{true, some, none, [], ◌∷◌, ◌≡◌, refl}
use gddp_runtime.Prelude.Int.{pos}
use gddp_runtime.Verification.Retry.{
  CriteriaFinding, should_retry, has_evidence_references, has_criteria_evidence, has_file_ref,
}
use gddp_runtime.Heartbeat.Store.{Db, StoredCheck, find}
use gddp_runtime.Heartbeat.Returns.{
  redispatched, redispatch_with_findings, redispatch_allocated, settle_dispatch, after_success,
  succeeded_as,
}
use gddp_runtime.Heartbeat.Classifier.{letter}
use gddp_runtime.Heartbeat.Sessions.{
  allocate_retry_attempt, insert_executor_session, new_session, recorded_base_commit_sha, job_base,
  filled, finalize_executor_session_dispatch, is_dispatching,
}
use gddp_runtime.Heartbeat.Merges.{
  MergedPr, MergeHost, parse_node_id, retried, handle_merged_pr, tag_from, tag_here, tag_value,
  after_word, after_colon, line_of, parse_job_id, identify, validate_repo, or_reject,
  handle_identified, route_result, sends_back, verification_of, write_result,
}
use gddp_runtime.Tests.Samples.{job_in}
use gddp_runtime.Tests.Returns.{host}

abbrev running : Db
running = record {
  events = [];
  jobs =
      record (job_in "running") {
        repo = "skchaudr/test-project";
        expected_base_commit_sha = some "b0";
      }
      ∷ [];
  queue_records = [];
  sessions = [];
  results = [];
}

abbrev failing : StoredCheck
failing = record {
  receipt_path = some "r.json";
  verification_status = "ok";
  verdict = "fail";
  integrity = none;
  criteria_findings = CriteriaFinding.entry ("footer.html:3" ∷ []) "no footer" ∷ [];
}

abbrev merge_host : MergeHost
merge_host = record {
  router = host;
  verify_job_return = λ project node merge pr job attempt. failing;
  allowed_repos = λ project. [];
  retry_budget = λ project. some (pos 2);
  is_word = λ c. true;
  now = "2026";
}

abbrev merged : MergedPr
merged = record {
  repo_name = some "skchaudr/test-project";
  number = some 7;
  body = some "Adds the page.\nNode: setup\njob:job_1\n";
  merged_at = some "2026";
  html_url = none;
  merge_commit_sha = some "c1";
}

tagged : parse_node_id merged.body ≡ some "setup"
unfolding parse_node_id tag_from tag_here after_word after_colon letter tag_value line_of lstrip
    rstrip strip is_space
tagged = refl

sent_back :
    (handle_merged_pr merge_host "evt_7" merged running).1
    ≡ retried (redispatched "ses_9" (some "https://jules/9"))
unfolding handle_merged_pr handle_identified identify validate_repo or_reject filled parse_node_id
    parse_job_id tag_from tag_here after_word after_colon letter tag_value line_of lstrip rstrip
    strip is_space find route_result sends_back should_retry has_evidence_references
    has_criteria_evidence has_file_ref verification_of write_result recorded_base_commit_sha
    job_base redispatch_with_findings redispatch_allocated allocate_retry_attempt
    insert_executor_session new_session settle_dispatch after_success succeeded_as
    finalize_executor_session_dispatch is_dispatching
sent_back = refl
