-- ===== src/Verification/Receipt.antt =====
-- scripts/runtime/verification/schemas.py: `VerdictReceipt`, its validation and the fields that
-- receipts of older versions lack.
use gddp_runtime.Prelude.{
  ℕ, String, Bool, false, ◌&&◌, ◌||◌, not, Option, none, some, List, nonempty, if◌then◌else◌,
  str_eq, or_else,
}
use gddp_runtime.Prelude.Floats.{FloatOps}
use gddp_runtime.Verification.Schemas.{
  Verdict, DeterministicResult, SemanticOutput, IntegrityOutput,
}

pub data CompletenessStatus : Type 0 where
  complete partial not_run : CompletenessStatus

pub data Rating : Type 0 where
  none_rating low medium high : Rating

pub record LaneCoverage : Type 0 where
  pub rating : Rating
  pub offered : ℕ
  pub content_accessed : ℕ
  pub not_observed : ℕ
  pub accessed_paths : List String
  pub not_observed_paths : List String

-- `criteria` is `none` for "not_run".
pub record ContextCoverage : Type 0 where
  pub criteria : Option LaneCoverage
  pub integrity : LaneCoverage
  pub overall : Rating

pub record LaneTiming : Type 0 where
  pub status : String
  pub tool_calls : ℕ

pub record VerdictReceipt (F : Type 0) : Type 0 where
  pub project_id : String
  pub node_id : String
  pub verdict : Verdict
  pub criteria_verdict : Option Verdict
  pub integrity : Option (IntegrityOutput F)
  pub confidence : F
  pub criteria_confidence : F
  pub completeness : F
  pub graph_readiness : F
  pub completeness_status : CompletenessStatus
  pub deterministic : DeterministicResult F
  pub semantic : Option (SemanticOutput F)
  pub decision_reasoning : String
  pub required_next_action : String
  pub generated_at : String
  pub evaluated_tree_sha : Option String
  pub evaluated_commit_sha : Option String
  pub merge_commit_sha : Option String
  pub expected_base_commit_sha : Option String
  pub pr_ref : Option String
  pub job_id : Option String
  pub execution_attempt_id : Option String
  pub evidence_manifest_sha256 : Option String
  pub mission_receipt_id : Option String
  pub canonical_context : List (String × String)
  pub context_coverage : Option ContextCoverage
  pub criteria_timing : LaneTiming
  pub integrity_timing : LaneTiming

-- The fields that `_fill_compatibility_fields` reads and fills, as they stand in a stored receipt.
pub record StoredScores (F : Type 0) : Type 0 where
  pub verdict : Option String
  pub confidence : Option F
  pub criteria_confidence : Option F
  pub completeness : Option F
  pub graph_readiness : Option F
  pub completeness_status : Option CompletenessStatus
  pub semantic : Option (SemanticOutput F)

passing : Option String → Bool
passing none = false
passing (some v) = str_eq v "pass"

module _ {F : Type 0} where
  unfoldable pub infer_completeness_status : Option (SemanticOutput F) → CompletenessStatus
  infer_completeness_status none = CompletenessStatus.not_run
  infer_completeness_status (some s) =
      if s.budget_exhausted || not (nonempty s.judgments)
      then CompletenessStatus.partial
      else CompletenessStatus.complete

module _ {F : Type 0} ⦃fl : FloatOps F⦄ where
  or_zero : Option F → F
  or_zero none = fl.zero_f
  or_zero (some x) = x

  unfoldable pub fill_compatibility_fields : StoredScores F → StoredScores F
  unfolding passing or_zero infer_completeness_status
  fill_compatibility_fields v =
      let criteria : Option F = or_else v.criteria_confidence v.confidence in
      record v {
        criteria_confidence = criteria;
        confidence = or_else v.confidence v.criteria_confidence;
        completeness =
            or_else v.completeness (some (if passing v.verdict then fl.one else fl.half));
        graph_readiness = or_else v.graph_readiness (some (or_zero criteria));
        completeness_status =
            or_else v.completeness_status (some (infer_completeness_status v.semantic));
      }

  -- `Field(ge=0.0, le=1.0)`
  unfoldable pub in_range : F → Bool
  in_range x = not (fl.lt x fl.zero_f) && not (fl.lt fl.one x)

  -- The numeric validation of a receipt.
  unfoldable pub scores_valid : VerdictReceipt F → Bool
  unfolding in_range
  scores_valid r =
      in_range r.confidence
      && in_range r.criteria_confidence
      && in_range r.completeness
      && in_range r.graph_readiness
