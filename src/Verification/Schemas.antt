-- ===== src/Verification/Schemas.antt =====
-- scripts/runtime/verification/schemas.py: the values that the lanes exchange. `F` is the type of
-- the scores. A dictionary is the list of its items; a tool trace is the list of its entries.
use gddp_runtime.Prelude.{ℕ, String, Bool, Option, List}

pub data LaneExecutionStatus : Type 0 where
  completed no_verdict crashed timed_out : LaneExecutionStatus

pub data Verdict : Type 0 where
  pass fail blocked needs_human_review needs_more_evidence out_of_scope_change_detected : Verdict

pub Verdict-discrete : Discrete Verdict
Verdict-discrete = hlevel

pub record CriterionCheck (F : Type 0) : Type 0 where
  pub id : String
  pub criterion : String
  pub status : String
  pub confidence : F
  pub method : String
  pub evidence : List String
  pub reasoning : String
  pub mismatch_kind : String
  pub mismatch_detail : String
  pub needs_evidence : Bool
  pub human_question : String

pub record ConstraintCheck (F : Type 0) : Type 0 where
  pub constraint : String
  pub status : String
  pub confidence : F
  pub method : String
  pub evidence : List String
  pub reasoning : String

pub record CriterionMismatch : Type 0 where
  pub criterion_id : String
  pub kind : String
  pub detail : String

pub record MissingEvidence : Type 0 where
  pub criterion_id : String
  pub what_is_missing : String
  pub what_exists : String

pub record HumanReviewQuestion : Type 0 where
  pub criterion_id : String
  pub question : String

-- The two shapes of the dictionary that `_subject_diff` returns.
pub data SubjectDiff : Type 0 where
  unavailable : String → String → SubjectDiff
  measured : String → String → List (String × String) → Bool → ℕ → SubjectDiff

pub record DeterministicResult (F : Type 0) : Type 0 where
  pub criteria : List (CriterionCheck F)
  pub constraints : List (ConstraintCheck F)
  pub artifacts_present : List (String × Bool)
  pub deps_status : List (String × String)
  pub criteria_mismatches : List CriterionMismatch
  pub missing_evidence : List MissingEvidence
  pub human_review_questions : List HumanReviewQuestion
  pub subject_diff : Option SubjectDiff

pub data Judgment : Type 0 where
  judged_pass judged_fail indeterminate : Judgment

pub record CriterionJudgment (F : Type 0) : Type 0 where
  pub criterion_id : String
  pub judgment : Judgment
  pub confidence : F
  pub evidence : List String
  pub reasoning : String

-- An entry of a tool trace, with the keys that the runtime reads.
pub record ToolEntry : Type 0 where
  pub tool : Option String
  pub event : Option String
  pub tool_call_id : Option String
  pub path : Option String
  pub ok_flag : Option Bool
  pub was_blocked : Bool

pub record SemanticOutput (F : Type 0) : Type 0 where
  pub judgments : List (CriterionJudgment F)
  pub overall_reasoning : String
  pub risks : Option String
  pub followup_candidates : Option String
  pub budget_exhausted : Bool
  pub budget_trace : Option (List ToolEntry)
  pub lane_status : Option LaneExecutionStatus
  pub harness_error : Option String

pub data Level : Type 0 where
  low medium high : Level

pub record IntegrityFinding : Type 0 where
  pub severity : Level
  pub summary : String
  pub affected_node_ids : List String

pub record GraphObservation : Type 0 where
  pub severity : Level
  pub summary : String
  pub affected_node_ids : List String

pub data GraphAction : Type 0 where
  split supersede insert_prerequisite revise_criteria : GraphAction
  rewire reorder create_node retire_node : GraphAction

pub record GraphRecommendation : Type 0 where
  pub action : GraphAction
  pub affected_node_ids : List String
  pub rationale : String
  pub evidence : List String
  pub draft_node_yaml : Option String

pub data IntegrityVerdict : Type 0 where
  pass block drift insufficient contradicted unknown : IntegrityVerdict

pub record IntegrityOutput (F : Type 0) : Type 0 where
  pub verdict : IntegrityVerdict
  pub intent_preserved : Bool
  pub graph_integrity_preserved : Bool
  pub required_human_review : Bool
  pub confidence : F
  pub findings : List IntegrityFinding
  pub reasoning : String
  pub tool_trace : Option (List ToolEntry)
  pub graph_observations : Option (List GraphObservation)
  pub graph_recommendations : Option (List GraphRecommendation)
  pub lane_status : Option LaneExecutionStatus
  pub harness_error : Option String
