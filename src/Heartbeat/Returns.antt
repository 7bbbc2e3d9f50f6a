-- ===== src/Heartbeat/Returns.antt =====
-- scripts/runtime/return_router.py: a reviewed result is rejected, and its job tried again.
pub mod Settling
pub mod Redispatch
pub mod SameBase
use Prim.Native.Nat.{Ordering}
use Prim.Native.String.{◌++◌ as text_append, compare as compare_text}
use gddp_runtime.Verification.Retry.{Finding, CriteriaFinding}
use gddp_runtime.Prelude.{
  ℕ, ◌+◌, ◌≤◌, String, Bool, true, false, ◌&&◌, ◌||◌, not, Option, none, some, List, [], ◌∷◌, ◌++◌,
  any, keep, if◌then◌else◌, ltb, leb, ◌==◌, str_eq, eq_refl, or_else, is_some, Result, ok, err, ◌≡◌,
  ◌⊎◌, inl, inr, refl, sym, ap, subst, ◌∙◌, arith, Bool-cases, Option-cases,
}
use gddp_runtime.Prelude.Text.{strip}
use gddp_runtime.Heartbeat.Store.{
  Db, JobRow, ResultRow, StoredCheck, IntegritySummary, AcceptanceCell, nothing, not_json,
  not_an_object, with_check, find, order_by,
}
use gddp_runtime.Heartbeat.Recorder.{set_job_state, mark_job_running}
use gddp_runtime.Heartbeat.Sessions.{
  Tick, Finalization, filled, recorded_base_commit_sha, allocate_retry_attempt,
  finalize_executor_session_dispatch,
}
use gddp_runtime.Heartbeat.Recording.{DispatchResult, SessionRef}

-- `previous_findings`, which the retried job carries.
pub record PreviousFindings : Type 0 where
  pub verdict : String
  pub integrity_verdict : String
  pub findings : List Finding
  pub reasoning : String
  pub criteria_findings : List CriteriaFinding
  pub human_fix_list : Option String

-- The `status` of the returned dictionary, with what tells the ways to one status apart.
pub data Return : Type 0 where
  retry_rejected : String → Return
  not_attempted : Option String → Return
  attempt_failed : (session_db_id error : String) → Return
  dispatch_superseded : (session_db_id : String) → Return
  redispatched : (session_db_id : String) (issue_url : Option String) → Return
  raised : Return

-- `dispatch` is the adapter's answer or the text of its exception, and `meanwhile` what other
-- processes write while it works. `encode` is `json.dumps`.
pub record ReturnHost : Type 0 where
  pub tick : Tick
  pub finalized_at : ℕ
  pub preflight_error : (executor repo : String) → Option String
  pub dispatch : JobRow → Result String DispatchResult
  pub meanwhile : Db → Db
  pub encode : PreviousFindings → String

-- `_mark_job_awaiting_review`
unfoldable pub mark_job_awaiting_review : String → Db → Db
mark_job_awaiting_review id db = set_job_state (λ j. str_eq j id) "awaiting_review" db

-- `ORDER BY received_at DESC`
unfoldable pub received_later : ResultRow → ResultRow → Bool
received_later a b = elim (compare_text b.received_at a.received_at) [
  | Ordering.lt ↦ true
  | _ ↦ false
]

unfoldable pub first_result : List ResultRow → Option ResultRow
first_result [] = none
first_result (r ∷ _) = some r

-- The newest result of the job.
unfoldable pub latest_result : String → Db → Option ResultRow
unfolding received_later first_result
latest_result job_id db =
    first_result (order_by received_later (keep (λ r. str_eq r.job_id job_id) db.results))

-- The dictionary that a job carries into its next attempt.
unfoldable pub findings_of : StoredCheck → Option String → PreviousFindings
findings_of v human =
    let evaluated = str_eq v.verification_status "ok" in
    let integrity = if evaluated then v.integrity else none in
    record {
      verdict = v.verdict;
      integrity_verdict = elim integrity [ some i ↦ i.verdict | none ↦ "" ];
      findings = elim integrity [ some i ↦ i.body.findings | none ↦ [] ];
      reasoning = elim integrity [ some i ↦ i.body.reasoning | none ↦ "" ];
      criteria_findings = if evaluated then v.criteria_findings else [];
      human_fix_list = human;
    }

unfoldable pub failed_as : String → Finalization
failed_as error = record {
  state = "dispatch_failed";
  executor = none;
  session_id = none;
  expected_base_commit_sha = none;
  error = some error;
  attempt_dir = none;
}

-- The finalisation of a dispatch that succeeded.
unfoldable pub succeeded_as : Option SessionRef → (issue_url : Option String) → Finalization
succeeded_as (some ref) url = record {
  state = "dispatched";
  executor = some ref.executor;
  session_id = some ref.session_id;
  expected_base_commit_sha = none;
  error = none;
  attempt_dir = none;
}
succeeded_as none url = record {
  state = "mediated";
  executor = none;
  session_id = url;
  expected_base_commit_sha = none;
  error = none;
  attempt_dir = none;
}

module _ (host : ReturnHost) where
  unfoldable pub after_failure : (job_id session error : String) → Db × Bool → Db × Return
  after_failure job_id session error (db, false) = (db, dispatch_superseded session)
  after_failure job_id session error (db, true) =
      (mark_job_awaiting_review job_id db, attempt_failed session error)

  unfoldable pub after_success : (job_id session : String) → Option String → Db × Bool → Db × Return
  after_success job_id session url (db, false) = (db, dispatch_superseded session)
  after_success job_id session url (db, true) =
      (mark_job_running job_id db, redispatched session url)

  unfoldable pub settle_dispatch :
      (job_id session : String) → Result String DispatchResult → Db → Db × Return
  unfolding after_failure after_success succeeded_as failed_as filled
  settle_dispatch job_id session (err message) db =
      let error = text_append "retry dispatch raised exception: " message in
      after_failure job_id session error
        (finalize_executor_session_dispatch host.finalized_at session (failed_as error) db)
  settle_dispatch job_id session (ok r) db =
      let error : String = elim (filled r.error) [ some e ↦ e | none ↦ "retry dispatch failed" ] in
      if r.success
      then after_success job_id session r.issue_url (
          finalize_executor_session_dispatch host.finalized_at session
            (succeeded_as r.session_ref r.issue_url) db)
      else after_failure job_id session error
          (finalize_executor_session_dispatch host.finalized_at session (failed_as error) db)

  unfoldable pub redispatch_allocated : String → Db → Option (JobRow × String × Db) → Db × Return
  unfolding settle_dispatch
  redispatch_allocated job_id db none = (mark_job_awaiting_review job_id db, not_attempted none)
  redispatch_allocated job_id db (some (job, session, reserved)) =
      settle_dispatch job_id session (host.dispatch job) (host.meanwhile reserved)

  -- `_redispatch_with_findings`; `base` is the job's `_retry_base_commit_sha`.
  unfoldable pub redispatch_with_findings :
      JobRow → (base : Option String) → PreviousFindings → Db → Db × Return
  unfolding redispatch_allocated
  redispatch_with_findings job base findings db =
      elim (host.preflight_error job.executor job.repo) [
        | some error ↦ (mark_job_awaiting_review job.job_id db, not_attempted (some error))
        | none ↦ redispatch_allocated job.job_id db (
            allocate_retry_attempt host.tick job job.executor base (some (host.encode findings)) db)
      ]

  -- A cell with an empty text is as good as none; `dict` of a value that is not an object raises (an
  -- empty list would not, and is never stored).
  unfoldable pub retry_cell : JobRow → String → Option AcceptanceCell → Db → Db × Return
  unfolding redispatch_with_findings findings_of
  retry_cell job reason none db = (db, retry_rejected "result_missing")
  retry_cell job reason (some nothing) db = (db, retry_rejected "result_missing")
  retry_cell job reason (some not_json) db = (db, retry_rejected "result_missing")
  retry_cell job reason (some not_an_object) db =
      elim (filled (recorded_base_commit_sha db job.job_id)) [
        | none ↦ (db, retry_rejected "base_commit_missing")
        | some base ↦ (db, raised)
      ]
  retry_cell job reason (some (with_check v)) db =
      elim (filled (recorded_base_commit_sha db job.job_id)) [
        | none ↦ (db, retry_rejected "base_commit_missing")
        | some base ↦ redispatch_with_findings job (some base) (findings_of v (some reason)) db
      ]

  abbrev cell_of : Option ResultRow → Option AcceptanceCell
  cell_of none = none
  cell_of (some r) = some r.acceptance_check

  unfoldable pub retry_found : String → Option JobRow → Db → Db × Return
  unfolding retry_cell latest_result
  retry_found reason none db = (db, retry_rejected "job_not_found")
  retry_found reason (some job) db =
      if str_eq job.status "awaiting_review" && str_eq job.queue_state "awaiting_review"
      then retry_cell job reason (cell_of (latest_result job.job_id db)) db
      else (db, retry_rejected "job_not_awaiting_review")

  unfoldable pub retry_reviewed_job : (job_id human_reason : String) → Db → Db × Return
  unfolding retry_found
  retry_reviewed_job job_id human_reason db =
      let reason = strip human_reason in
      if str_eq reason ""
      then (db, retry_rejected "reason_required")
      else retry_found reason (find (λ j. str_eq j.job_id job_id) db.jobs) db
