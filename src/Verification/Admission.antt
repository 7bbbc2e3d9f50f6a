-- ===== src/Verification/Admission.antt =====
-- scripts/runtime/verification/admission.py: which stored receipts count, and for what subject.
pub mod Binding
use gddp_runtime.Prelude.{
  ℕ, String, Bool, true, false, ◌&&◌, ◌||◌, not, Option, none, some, if◌then◌else◌, str_eq, Result,
  ok, err, ◌>>=◌, ◌>>◌, guard,
}
use gddp_runtime.Verification.Schemas.{
  Verdict, LaneExecutionStatus, SemanticOutput, IntegrityOutput, IntegrityVerdict,
}
use gddp_runtime.Verification.Receipt.{VerdictReceipt, CompletenessStatus}

abbrev is_completed : Option LaneExecutionStatus → Bool
is_completed (some LaneExecutionStatus.completed) = true
is_completed (some _) = false
is_completed none = false

abbrev is_complete : CompletenessStatus → Bool
is_complete CompletenessStatus.complete = true
is_complete CompletenessStatus.partial = false
is_complete CompletenessStatus.not_run = false

abbrev is_pass : Verdict → Bool
is_pass Verdict.pass = true
is_pass _ = false

abbrev is_pass? : Option Verdict → Bool
is_pass? none = false
is_pass? (some v) = is_pass v

abbrev is_integrity_pass : IntegrityVerdict → Bool
is_integrity_pass IntegrityVerdict.pass = true
is_integrity_pass _ = false

module _ {F : Type 0} where
  semantic_completed : Option (SemanticOutput F) → Bool
  semantic_completed none = false
  semantic_completed (some s) = is_completed s.lane_status

  integrity_completed : Option (IntegrityOutput F) → Bool
  integrity_completed none = false
  integrity_completed (some i) = is_completed i.lane_status

  unfoldable pub receipt_is_complete : VerdictReceipt F → Bool
  unfolding semantic_completed integrity_completed
  receipt_is_complete r =
      is_complete r.completeness_status
      && semantic_completed r.semantic
      && integrity_completed r.integrity

  integrity_admits : Option (IntegrityOutput F) → Bool
  integrity_admits none = false
  integrity_admits (some i) =
      is_integrity_pass i.verdict
      && i.intent_preserved
      && i.graph_integrity_preserved
      && not i.required_human_review

  unfoldable pub receipt_admits : VerdictReceipt F → Bool
  unfolding receipt_is_complete integrity_admits
  receipt_admits r =
      receipt_is_complete r
      && is_pass r.verdict
      && is_pass? r.criteria_verdict
      && integrity_admits r.integrity

-- What reading and parsing the file at a path gives.
pub data ReceiptFile (F : Type 0) : Type 0 where
  missing unreadable malformed not_an_object invalid_schema : ReceiptFile F
  parsed : VerdictReceipt F → ReceiptFile F

-- `ReceiptAdmissionError`, by its messages.
pub data AdmissionError : Type 0 where
  file_missing file_unreadable file_malformed file_not_an_object schema_invalid : AdmissionError
  project_mismatch node_mismatch job_mismatch attempt_mismatch : AdmissionError
  merge_commit_mismatch evaluated_commit_mismatch base_mismatch : AdmissionError

-- The durable job and session that a receipt must be about.
pub record Subject : Type 0 where
  pub project_id : String
  pub node_id : String
  pub job_id : String
  pub execution_attempt_id : String
  pub result_commit_sha : String
  pub expected_base_commit_sha : Option String

-- `field == value` for a field that may be `None`.
abbrev pub is_text : Option String → String → Bool
is_text none value = false
is_text (some text) value = str_eq text value

abbrev pub base_matches : Option String → Option String → Bool
base_matches field none = true
base_matches field (some base) = is_text field base

module _ {F : Type 0} where
  unfoldable pub open_receipt : ReceiptFile F → Result AdmissionError (VerdictReceipt F)
  open_receipt missing = err file_missing
  open_receipt unreadable = err file_unreadable
  open_receipt malformed = err file_malformed
  open_receipt not_an_object = err file_not_an_object
  open_receipt invalid_schema = err schema_invalid
  open_receipt (parsed r) = ok r

  unfoldable pub check_subject :
      Subject → VerdictReceipt F → Result AdmissionError (VerdictReceipt F)
  check_subject s r = do
    guard (str_eq r.project_id s.project_id) project_mismatch
    guard (str_eq r.node_id s.node_id) node_mismatch
    guard (is_text r.job_id s.job_id) job_mismatch
    guard (is_text r.execution_attempt_id s.execution_attempt_id) attempt_mismatch
    guard (is_text r.merge_commit_sha s.result_commit_sha) merge_commit_mismatch
    guard (is_text r.evaluated_commit_sha s.result_commit_sha) evaluated_commit_mismatch
    guard (base_matches r.expected_base_commit_sha s.expected_base_commit_sha) base_mismatch
    ok r

  unfoldable pub read_validated_receipt :
      ReceiptFile F → Subject → Result AdmissionError (VerdictReceipt F)
  unfolding open_receipt check_subject
  read_validated_receipt file s = do r ← open_receipt file; check_subject s r
