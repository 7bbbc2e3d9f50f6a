-- ===== src/Verification/Orchestrator.antt =====
-- scripts/runtime/verification/orchestrator.py: one verification run, from the checks to the receipt.
pub mod Admits
use gddp_runtime.Prelude.{
  ℕ, zero, suc, ◌+◌, ◌-◌, ◌≤◌, ◌<◌, String, Bool, true, false, ◌&&◌, ◌||◌, not, Option, none, some,
  List, [], ◌∷◌, ◌++◌, map, any, all, keep, All, nonempty, length, mem, if◌then◌else◌, ltb, leb,
  ◌==◌, str_eq, eq_iff, eq_refl, or_else, is_some, Result, ok, err, ◌>>=◌, ◌>>◌, guard, ◌≡◌, ◌≢◌,
  ◌↔◌, ◌⊎◌, inl, inr, refl, sym, ap, subst, ◌∙◌, arith, Bool-cases, Option-cases,
}
use gddp_runtime.Prelude.Floats.{FloatOps}
use gddp_runtime.Heartbeat.Graph.{NodeRow}
use gddp_runtime.Verification.Schemas.{
  CriterionCheck, ConstraintCheck, DeterministicResult, SemanticOutput, IntegrityOutput,
  SubjectDiff, Verdict, LaneExecutionStatus, ToolEntry,
}
use gddp_runtime.Verification.Context.{satisfied_dep_statuses}
use gddp_runtime.Verification.Signals.{VerificationSignals, overall_confidence}
use gddp_runtime.Verification.Matrix.{DecideError, decide}
use gddp_runtime.Verification.Combiner.{combine}
use gddp_runtime.Verification.Receipt.{
  VerdictReceipt, CompletenessStatus, infer_completeness_status, scores_valid, LaneTiming,
}
use gddp_runtime.Verification.Coverage.{compute_context_coverage, is_named}

-- The exceptions of a run.
pub data VerifyError : Type 0 where
  decision : DecideError → VerifyError
  semantic_harness_required receipt_invalid : VerifyError

-- The subject, and what the run reads from git and the clock.
pub record Run : Type 0 where
  pub project_id : String
  pub node_id : String
  pub canonical_context : List (String × String)
  pub generated_at : String
  pub evaluated_tree_sha : Option String
  pub evaluated_commit_sha : Option String
  pub merge_commit_sha : Option String
  pub expected_base_commit_sha : Option String
  pub pr_ref : Option String
  pub job_id : Option String
  pub execution_attempt_id : Option String
  pub evidence_manifest_sha256 : Option String
  pub mission_receipt_id : Option String

lane_status_value : Option LaneExecutionStatus → String
lane_status_value none = "completed"
lane_status_value (some LaneExecutionStatus.completed) = "completed"
lane_status_value (some LaneExecutionStatus.no_verdict) = "no-verdict"
lane_status_value (some LaneExecutionStatus.crashed) = "crashed"
lane_status_value (some LaneExecutionStatus.timed_out) = "timed-out"

-- `_tool_call_count`: entries with a tool name that is not empty, which are no end events.
counted_call : ToolEntry → Bool
counted_call e =
    is_some e.tool && not (is_named e.tool "") && not (is_named e.event "tool_execution_end")

tool_call_count : Option (List ToolEntry) → ℕ
unfolding counted_call
tool_call_count none = 0
tool_call_count (some trace) = length (keep counted_call trace)

unfoldable pub lift_decide : {A : Type 0} → Result DecideError A → Result VerifyError A
lift_decide (ok a) = ok a
lift_decide (err e) = err (decision e)

module _ {F : Type 0} where
  unfoldable pub should_run_semantic : DeterministicResult F → Bool
  should_run_semantic det =
      any (λ k. str_eq k.status "indeterminate") det.criteria
      && not (any (λ d. not (mem d.1 satisfied_dep_statuses)) det.deps_status)
      && not (any (λ k. str_eq k.status "violated") det.constraints)
      && not (any (λ k. str_eq k.status "fail") det.criteria)

  semantic_timing : Option (SemanticOutput F) → LaneTiming
  unfolding lane_status_value tool_call_count
  semantic_timing none = record { status = "not_run"; tool_calls = 0 }
  semantic_timing (some s) = record {
    status = lane_status_value s.lane_status;
    tool_calls = tool_call_count s.budget_trace;
  }

  integrity_lane_timing : Option (IntegrityOutput F) → LaneTiming
  unfolding lane_status_value tool_call_count
  integrity_lane_timing none = record { status = "not_run"; tool_calls = 0 }
  integrity_lane_timing (some i) = record {
    status = lane_status_value i.lane_status;
    tool_calls = tool_call_count i.tool_trace;
  }

  reasoning_of : Option (SemanticOutput F) → String → String
  reasoning_of none action = action
  reasoning_of (some s) action = s.overall_reasoning

  -- The semantic lane runs only where the evidence is unsettled, and then must be there.
  unfoldable pub run_semantic :
      Bool
      → Option (DeterministicResult F → SemanticOutput F)
      → DeterministicResult F
      → Result VerifyError (Option (SemanticOutput F))
  run_semantic false harness det = ok none
  run_semantic true none det = err semantic_harness_required
  run_semantic true (some harness) det = ok (some (harness det))

  unfoldable pub run_integrity :
      Option (DeterministicResult F → IntegrityOutput F)
      → DeterministicResult F
      → Option (IntegrityOutput F)
  run_integrity none det = none
  run_integrity (some harness) det = some (harness det)

module _ {F : Type 0} ⦃fl : FloatOps F⦄ (resolve : String → String) (run : Run) where
  unfoldable pub build_receipt :
      (det : DeterministicResult F) (semantic : Option (SemanticOutput F))
      (integrity : Option (IntegrityOutput F)) (criteria_verdict : Verdict)
      (signals : VerificationSignals F) (verdict : Verdict) (action : String)
      → VerdictReceipt F
  unfolding semantic_timing integrity_lane_timing reasoning_of
  build_receipt det semantic integrity criteria_verdict signals verdict action = record {
    project_id = run.project_id;
    node_id = run.node_id;
    verdict = verdict;
    criteria_verdict = some criteria_verdict;
    integrity = integrity;
    confidence = overall_confidence signals;
    criteria_confidence = signals.criteria_confidence;
    completeness = signals.completeness;
    graph_readiness = signals.graph_readiness;
    completeness_status = infer_completeness_status semantic;
    deterministic = det;
    semantic = semantic;
    decision_reasoning = reasoning_of semantic action;
    required_next_action = action;
    generated_at = run.generated_at;
    evaluated_tree_sha = run.evaluated_tree_sha;
    evaluated_commit_sha = run.evaluated_commit_sha;
    merge_commit_sha = run.merge_commit_sha;
    expected_base_commit_sha = run.expected_base_commit_sha;
    pr_ref = run.pr_ref;
    job_id = run.job_id;
    execution_attempt_id = run.execution_attempt_id;
    evidence_manifest_sha256 = run.evidence_manifest_sha256;
    mission_receipt_id = run.mission_receipt_id;
    canonical_context = run.canonical_context;
    context_coverage = compute_context_coverage resolve run.canonical_context semantic integrity;
    criteria_timing = semantic_timing semantic;
    integrity_timing = integrity_lane_timing integrity;
  }

  unfoldable pub validated : VerdictReceipt F → Result VerifyError (VerdictReceipt F)
  validated r = do guard (scores_valid r) receipt_invalid; ok r

  -- `verify`, after `deterministic.assemble`; the harnesses are the two models' lanes.
  unfoldable pub verify :
      Option (DeterministicResult F → SemanticOutput F)
      → Option (DeterministicResult F → IntegrityOutput F)
      → DeterministicResult F
      → Result VerifyError (VerdictReceipt F)
  unfolding run_semantic run_integrity lift_decide validated
  verify semantic_harness integrity_harness det = do
    semantic ← run_semantic (should_run_semantic det) semantic_harness det
    d ← lift_decide (decide det semantic)
    let integrity = run_integrity integrity_harness det
    let c = combine d.0 integrity d.2
    validated (build_receipt det semantic integrity d.0 d.1 c.0 c.1)
