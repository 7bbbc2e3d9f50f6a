-- ===== src/Tests/Lanes.antt =====
-- The theorems on the two lanes, the matrix and the combiner, at concrete evidence. Scores are percentages.
use gddp_runtime.Prelude.{
  ℕ, ◌≤◌, String, Bool, true, false, none, some, List, [], ◌∷◌, ok, err, ◌≡◌, ◌↔◌, ◌⊎◌, inl, inr,
  refl,
}
use gddp_runtime.Prelude.Floats.{percent, InUnit, min_f}
use gddp_runtime.Verification.Schemas.{
  CriterionCheck, DeterministicResult, SemanticOutput, Judgment, IntegrityOutput, IntegrityVerdict,
  Verdict, LaneExecutionStatus,
}
use gddp_runtime.Verification.Context.{
  deps_incomplete, constraint_violated, any_fail, indeterminate_only, all_pass, any_indeterminate,
  any_judged_fail, judgments, all_judged_pass, artifacts_missing, any_judgment_indeterminate,
  budget_exhausted, judgments_empty, artifacts_present, mean, deterministic_floor_confidence,
  floor_of,
}
use gddp_runtime.Verification.Matrix.{decide, matrix_exhausted, first_match, matrix}
use gddp_runtime.Verification.Matrix.Reference.{expected, verdict_of, decide-eq-expected}
use gddp_runtime.Verification.Matrix.Pass.{
  Clean, Evidence, decide-pass_iff, decide_total, decide-no_criteria,
}
use gddp_runtime.Verification.Matrix.Bounds.{decide-InUnit}
use gddp_runtime.Verification.Signals.{
  VerificationSignals, overall_confidence, signals_semantic_blend, semantic_criteria_confidence,
  blended_completeness, blended_confidence, criterion_satisfaction_confidence, satisfaction_of,
  signals_all_criteria, signals_blocked, signals_constraint_violation, signals_fail_criteria,
}
use gddp_runtime.Verification.Signals.Bounds.{AreInUnit, IsScored}
use gddp_runtime.Verification.Combiner.{combine, severity}
use gddp_runtime.Verification.Combiner.Worse.{floor, combine-worse}

abbrev pub checked : String → String → ℕ → CriterionCheck ℕ
checked id status confidence = record {
  id = id;
  criterion = "the build passes";
  status = status;
  confidence = confidence;
  method = "command";
  evidence = "exit 0" ∷ [];
  reasoning = "";
  mismatch_kind = "";
  mismatch_detail = "";
  needs_evidence = false;
  human_question = "";
}

abbrev pub evidence_of : List (CriterionCheck ℕ) → DeterministicResult ℕ
evidence_of criteria = record {
  criteria = criteria;
  constraints =
      record {
        constraint = "no new dependency";
        status = "satisfied";
        confidence = 100;
        method = "scan";
        evidence = [];
        reasoning = "";
      }
      ∷ [];
  artifacts_present = ("notes.md", true) ∷ [];
  deps_status = ("setup", "complete") ∷ [];
  criteria_mismatches = [];
  missing_evidence = [];
  human_review_questions = [];
  subject_diff = none;
}

-- One criterion is settled, the other is left to the semantic lane.
abbrev pub unsettled : DeterministicResult ℕ
unsettled = evidence_of (checked "builds" "pass" 95 ∷ checked "reads_well" "indeterminate" 40 ∷ [])

abbrev pub approving : SemanticOutput ℕ
approving = record {
  judgments =
      record {
        criterion_id = "reads_well";
        judgment = Judgment.judged_pass;
        confidence = 80;
        evidence = [];
        reasoning = "";
      }
      ∷ [];
  overall_reasoning = "The text reads well.";
  risks = none;
  followup_candidates = none;
  budget_exhausted = false;
  budget_trace = none;
  lane_status = some LaneExecutionStatus.completed;
  harness_error = none;
}

abbrev pub integrity_answer : IntegrityVerdict → Bool → IntegrityOutput ℕ
integrity_answer verdict intent = record {
  verdict = verdict;
  intent_preserved = intent;
  graph_integrity_preserved = true;
  required_human_review = false;
  confidence = 90;
  findings = [];
  reasoning = "";
  tool_trace = none;
  graph_observations = none;
  graph_recommendations = none;
  lane_status = some LaneExecutionStatus.completed;
  harness_error = none;
}

pub unsettled-IsScored :
    IsScored {F = ℕ} (record { deterministic = unsettled; semantic = some approving })
unfolding judgments
unsettled-IsScored = record {
  criteria = ((refl, refl), ((refl, refl), tt));
  constraints = ((refl, refl), tt);
  judged = ((refl, refl), tt);
}

-- The signals of row 11.
abbrev pub row_11_signals : VerificationSignals ℕ
row_11_signals = record { criteria_confidence = 80; completeness = 100; graph_readiness = 80 }

pub unsettled_decided :
    decide unsettled (some approving)
    ≡ ok (Verdict.pass, row_11_signals, "Proceed to accept_node (open evidence PR).")
unfolding decide first_match matrix min_f deps_incomplete constraint_violated any_fail
    indeterminate_only all_pass any_indeterminate any_judged_fail judgments all_judged_pass
    artifacts_missing any_judgment_indeterminate budget_exhausted judgments_empty artifacts_present
    mean deterministic_floor_confidence floor_of signals_semantic_blend semantic_criteria_confidence
    blended_completeness blended_confidence criterion_satisfaction_confidence satisfaction_of
    signals_all_criteria signals_blocked signals_constraint_violation signals_fail_criteria
unsettled_decided = refl

decide-eq-expected_example :
    verdict_of (decide unsettled (some approving))
    ≡ expected (record { deterministic = unsettled; semantic = some approving })
decide-eq-expected_example = decide-eq-expected unsettled (some approving)

decide-pass_iff_example :
    (verdict_of (decide unsettled (some approving)) ≡ some Verdict.pass)
    ↔ (Clean unsettled × Evidence unsettled (some approving))
decide-pass_iff_example = decide-pass_iff unsettled (some approving)

decide_total_example :
    (d : Verdict × VerificationSignals ℕ × String) × (decide unsettled none ≡ ok d)
decide_total_example = decide_total unsettled none refl (inl refl, (inr (inr refl), tt))

decide-no_criteria_example : decide (evidence_of []) none ≡ err matrix_exhausted
decide-no_criteria_example = decide-no_criteria (evidence_of []) none refl (refl, tt) (refl, tt)

decide-InUnit_example : AreInUnit row_11_signals × InUnit (overall_confidence row_11_signals)
decide-InUnit_example =
    decide-InUnit unsettled (some approving) unsettled-IsScored Verdict.pass row_11_signals
      "Proceed to accept_node (open evidence PR)." unsettled_decided

abbrev drifted : IntegrityOutput ℕ
drifted = integrity_answer IntegrityVerdict.pass false

combine-worse_example :
    (severity Verdict.pass ≤ severity (combine Verdict.pass (some drifted) "Proceed.").0)
    × (severity (floor (some drifted))
        ≤ severity (combine Verdict.pass (some drifted) "Proceed.").0)
    × (((combine Verdict.pass (some drifted) "Proceed.").0 ≡ Verdict.pass)
        ⊎ ((combine Verdict.pass (some drifted) "Proceed.").0 ≡ floor (some drifted)))
combine-worse_example = combine-worse Verdict.pass (some drifted) "Proceed."
