-- ===== src/Verification/Signals.antt =====
-- scripts/runtime/verification/decision_engine.py: `VerificationSignals` and its builders.
pub mod Bounds
use gddp_runtime.Prelude.{Bool, ◌&&◌, List, map, nonempty, if◌then◌else◌}
use gddp_runtime.Prelude.Floats.{FloatOps, min_f}
use gddp_runtime.Verification.Schemas.{CriterionCheck, ConstraintCheck, CriterionJudgment, Judgment}
use gddp_runtime.Verification.Context.{
  DecisionContext, mean, deterministic_floor_confidence, violated_constraints, fail_criteria,
  indeterminate_criteria, artifacts_present, budget_exhausted,
}

pub record VerificationSignals (F : Type 0) : Type 0 where
  pub criteria_confidence : F
  pub completeness : F
  pub graph_readiness : F

module _ {F : Type 0} ⦃fl : FloatOps F⦄ where
  unfoldable pub overall_confidence : VerificationSignals F → F
  overall_confidence s = min_f s.criteria_confidence s.completeness

  unfoldable pub signals_blocked : DecisionContext F → VerificationSignals F
  signals_blocked c = record {
    criteria_confidence = fl.one;
    completeness = fl.half;
    graph_readiness = fl.zero_f;
  }

  unfoldable pub signals_constraint_violation : DecisionContext F → VerificationSignals F
  signals_constraint_violation c =
      let conf = mean (map (λ (k : ConstraintCheck F). k.confidence) (violated_constraints c)) in
      record { criteria_confidence = conf; completeness = fl.one; graph_readiness = fl.zero_f }

  unfoldable pub signals_fail_criteria : DecisionContext F → VerificationSignals F
  signals_fail_criteria c =
      let conf = mean (map (λ (k : CriterionCheck F). k.confidence) (fail_criteria c)) in
      record { criteria_confidence = conf; completeness = fl.one; graph_readiness = fl.zero_f }

  unfoldable pub signals_all_criteria : DecisionContext F → VerificationSignals F
  signals_all_criteria c =
      let conf = mean (map (λ (k : CriterionCheck F). k.confidence) c.deterministic.criteria) in
      let completeness : F = if artifacts_present c then fl.one else fl.half in
      record {
        criteria_confidence = conf;
        completeness = completeness;
        graph_readiness = if fl.lt fl.nine_tenths completeness then conf else fl.zero_f;
      }

  unfoldable pub satisfaction_of : Judgment → F → F
  satisfaction_of Judgment.judged_pass conf = conf
  satisfaction_of Judgment.judged_fail conf = fl.sub fl.one conf
  satisfaction_of Judgment.indeterminate conf = min_f conf (fl.sub fl.one conf)

  unfoldable pub criterion_satisfaction_confidence : CriterionJudgment F → F
  unfolding satisfaction_of
  criterion_satisfaction_confidence j = satisfaction_of j.judgment j.confidence

  unfoldable pub semantic_criteria_confidence : List (CriterionJudgment F) → F
  semantic_criteria_confidence js = mean (map criterion_satisfaction_confidence js)

  -- The confidence before the cap: the floor alone without judgments; the judgments alone where
  -- indeterminate criteria made the lane run; else the smaller of the two.
  unfoldable pub blended_confidence : DecisionContext F → List (CriterionJudgment F) → F
  blended_confidence c js =
      if nonempty js
      then if nonempty (indeterminate_criteria c)
        then semantic_criteria_confidence js
        else min_f (deterministic_floor_confidence c) (semantic_criteria_confidence js)
      else deterministic_floor_confidence c

  unfoldable pub blended_completeness : DecisionContext F → F
  blended_completeness c =
      let base : F = if artifacts_present c then fl.one else fl.half in
      if budget_exhausted c then min_f base fl.half else base

  unfoldable pub signals_semantic_blend :
      DecisionContext F → List (CriterionJudgment F) → Bool → VerificationSignals F
  unfolding blended_confidence blended_completeness
  signals_semantic_blend c js cap_at_half =
      let conf : F =
        if cap_at_half then min_f (blended_confidence c js) fl.half else blended_confidence c js in
      let completeness = blended_completeness c in
      let ready = fl.lt fl.nine_tenths completeness && fl.lt fl.half conf in
      record {
        criteria_confidence = conf;
        completeness = completeness;
        graph_readiness = if ready then conf else fl.zero_f;
      }
