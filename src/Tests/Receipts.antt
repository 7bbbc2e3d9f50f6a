-- ===== src/Tests/Receipts.antt =====
-- The theorems on receipts, retries and coverage, at a run with concrete evidence.
use gddp_runtime.Prelude.{Among, length}
use gddp_runtime.Verification.Receipt.{LaneCoverage}
use gddp_runtime.Verification.Retry.Evidence.{HasEvidence, HasCriteriaEvidence}
use gddp_runtime.Prelude.{
  ℕ, ◌+◌, ◌≤◌, String, Bool, true, ◌&&◌, not, none, some, List, [], ◌∷◌, any, leb, str_eq, ok, ◌≡◌,
  ◌≢◌, ◌↔◌, ◌⊎◌, inl, inr, refl, arith, false, Option,
}
use gddp_runtime.Tests.Samples.{project, landing, job_in}
use gddp_runtime.Heartbeat.Store.{Db, SessionRow, with_check, find, order_by}
use gddp_runtime.Heartbeat.Graph.{ProjectGraph, NodeData, NodeRow, is_satisfied, node_status}
use gddp_runtime.Heartbeat.Sessions.{new_session, execution_attempt_id}
use gddp_runtime.Prelude.Decimal.{show}
use gddp_runtime.Heartbeat.Chaining.{
  first_vouched, result_sessions, session_receipt_path, subject_of, Sources, chained_base,
  chained_on, provisional_deps,
}
use gddp_runtime.Heartbeat.Chaining.Based.{IsBased, chained_base-IsChained}
use gddp_runtime.Prelude.Floats.{percent, min_f}
use gddp_runtime.Prelude.Int.{pos, ◌<ℤ◌}
use gddp_runtime.Verification.Schemas.{
  DeterministicResult, SemanticOutput, IntegrityOutput, IntegrityVerdict, Verdict,
}
use gddp_runtime.Verification.Context.{deps_incomplete, artifacts_missing}
use gddp_runtime.Verification.Signals.{overall_confidence}
use gddp_runtime.Verification.Combiner.{combine, worse, severity, lane_floor, integrity_floor}
use gddp_runtime.Verification.Matrix.Pass.{Clean, JudgedPass}
use gddp_runtime.Verification.Receipt.{
  VerdictReceipt, scores_valid, in_range, infer_completeness_status,
}
use gddp_runtime.Verification.Admission.{
  Subject, parsed, read_validated_receipt, receipt_admits, receipt_is_complete,
}
use gddp_runtime.Verification.Admission.Binding.{IsBound, read_validated_receipt-ok_iff}
use gddp_runtime.Verification.Retry.{IntegrityJson, Finding, JobBudget, should_retry}
use gddp_runtime.Verification.Retry.Budget.{should_retry_iff}
use gddp_runtime.Verification.Coverage.{rate_lane, coverage_severity}
use gddp_runtime.Verification.Coverage.Rate.{IsRated, rate_lane_lem}
use gddp_runtime.Verification.Deterministic.{Checkout, artifact_present}
use gddp_runtime.Verification.Deterministic.Evidence.{found, assemble_lem}
use gddp_runtime.Verification.Orchestrator.{
  Run, verify, build_receipt, run_semantic, should_run_semantic, run_integrity, lift_decide,
  validated,
}
use gddp_runtime.Verification.Orchestrator.Admits.{IsApproval, verify-admits, verify_total}
use gddp_runtime.Tests.Lanes.{
  checked, unsettled, approving, integrity_answer, row_11_signals, unsettled_decided,
  unsettled-IsScored,
}

abbrev run : Run
run = record {
  project_id = "site";
  node_id = "landing";
  canonical_context = ("readme", "README.md") ∷ [];
  generated_at = "2026-01-01T00:00:00Z";
  evaluated_tree_sha = some "t1";
  evaluated_commit_sha = some "c1";
  merge_commit_sha = some "c1";
  expected_base_commit_sha = some "b0";
  pr_ref = none;
  job_id = some "job_1";
  execution_attempt_id = some "job_1:attempt:0";
  evidence_manifest_sha256 = none;
  mission_receipt_id = none;
}

-- Paths are absolute already.
abbrev resolve : String → String
resolve path = path

abbrev semantic_lane : DeterministicResult ℕ → SemanticOutput ℕ
semantic_lane det = approving

abbrev integrity_lane : DeterministicResult ℕ → IntegrityOutput ℕ
integrity_lane det = integrity_answer IntegrityVerdict.pass true

abbrev receipt : VerdictReceipt ℕ
receipt =
    build_receipt resolve run unsettled (some approving)
      (some (integrity_answer IntegrityVerdict.pass true)) Verdict.pass row_11_signals Verdict.pass
      "Proceed to accept_node (open evidence PR)."

verified : verify resolve run (some semantic_lane) (some integrity_lane) unsettled ≡ ok receipt
unfolding verify run_semantic should_run_semantic lift_decide run_integrity combine worse severity
    lane_floor integrity_floor validated build_receipt scores_valid in_range overall_confidence
    min_f
verified = rw unsettled_decided refl

admitted : receipt_admits receipt ≡ true
unfolding receipt_admits receipt_is_complete build_receipt infer_completeness_status
admitted = refl

verify-admits_example :
    Clean unsettled
    × ((s : SemanticOutput ℕ) × (receipt.semantic ≡ some s) × JudgedPass unsettled s)
    × ((i : IntegrityOutput ℕ) × (receipt.integrity ≡ some i) × IsApproval i)
verify-admits_example =
    verify-admits resolve run (some semantic_lane) (some integrity_lane) unsettled receipt verified
      admitted

verify_total_example :
    (r : VerdictReceipt ℕ) × (verify resolve run
        (some semantic_lane)
        (some integrity_lane)
        unsettled
      ≡ ok r)
verify_total_example =
    verify_total resolve run (some semantic_lane) (some integrity_lane) unsettled semantic_lane refl
      refl (inl refl, (inr (inr refl), tt)) unsettled-IsScored

abbrev subject : Subject
subject = record {
  project_id = "site";
  node_id = "landing";
  job_id = "job_1";
  execution_attempt_id = "job_1:attempt:0";
  result_commit_sha = "c1";
  expected_base_commit_sha = some "b0";
}

read_validated_receipt-ok_iff_example :
    (read_validated_receipt (parsed receipt) subject ≡ ok receipt)
    ↔ ((parsed receipt ≡ parsed receipt) × IsBound subject receipt)
read_validated_receipt-ok_iff_example =
    read_validated_receipt-ok_iff (parsed receipt) subject receipt

-- Small letters alone, as a table of word characters.
abbrev is_small : ℕ → Bool
is_small c = leb b'a' c && leb c b'z'

abbrev complaint : IntegrityJson
complaint = record {
  findings = Finding.entry "src/app.py changes an endpoint" [] ∷ [];
  reasoning = "";
}

abbrev first_attempt : JobBudget
first_attempt = record { attempt = some (pos 0); max_attempts = none }

should_retry_iff_example :
    (should_retry is_small "fail" (some complaint) first_attempt (some (pos 2)) none ≡ true) ↔ (
      (◌≢◌ {A = String} "fail" "pass")
      × (HasEvidence is_small (some complaint) ⊎ HasCriteriaEvidence is_small none)
      × (pos 0 <ℤ pos 2)
      × (pos 0 <ℤ pos 2)
      × (pos 0 <ℤ pos 3))
should_retry_iff_example =
    should_retry_iff is_small "fail" (some complaint) first_attempt (some (pos 2)) none

abbrev half_read : LaneCoverage
half_read = rate_lane ("a" ∷ []) ("a" ∷ "b" ∷ []) ("a" ∷ []) ("b" ∷ [])

abbrev page : String
page = "a"

rate_lane_lem_example :
    (Among page half_read.accessed_paths ↔ (Among page ("a" ∷ "b" ∷ []) × Among page ("a" ∷ [])))
    × (Among page half_read.not_observed_paths
        ↔ (Among page ("a" ∷ "b" ∷ []) × (Among page ("a" ∷ []) → ⊥)))
    × (half_read.content_accessed ≡ length half_read.accessed_paths)
    × (half_read.not_observed ≡ length half_read.not_observed_paths)
    × (half_read.content_accessed + half_read.not_observed ≡ 2)
    × (half_read.offered ≡ 2)
    × IsRated ("a" ∷ []) ("a" ∷ "b" ∷ []) ("a" ∷ []) ("b" ∷ []) half_read.rating
    × (coverage_severity half_read.rating
        ≤ coverage_severity
            (rate_lane ("a" ∷ "b" ∷ []) ("a" ∷ "b" ∷ []) ("a" ∷ []) ("b" ∷ [])).rating)
rate_lane_lem_example =
    rate_lane_lem ("a" ∷ []) ("a" ∷ "b" ∷ []) ("a" ∷ "b" ∷ []) ("a" ∷ []) ("b" ∷ []) page
      (λ p h. ground arith)

abbrev graph_rows : List NodeRow
graph_rows =
    record { id = "setup"; status = some "provisional" }
    ∷ record { id = "theme"; status = none }
    ∷ []

abbrev checkout : Checkout
checkout = record { is_file = λ s name. str_eq name "notes.md"; receipt_lines = λ s. none }

assemble_lem_example :
    (deps_incomplete (
        found
          (checked "builds" "pass" 95 ∷ [])
          []
          graph_rows
          ("setup" ∷ "theme" ∷ [])
          ("notes.md" ∷ [])
          checkout
          none
          none)
      ≡ any (λ d. not (is_satisfied (node_status graph_rows d))) ("setup" ∷ "theme" ∷ []))
    × (artifacts_missing (
          found
            (checked "builds" "pass" 95 ∷ [])
            []
            graph_rows
            ("setup" ∷ "theme" ∷ [])
            ("notes.md" ∷ [])
            checkout
            none
            none)
        ≡ any (λ a. not (artifact_present checkout a)) ("notes.md" ∷ []))
assemble_lem_example =
    assemble_lem (checked "builds" "pass" 95 ∷ []) [] graph_rows ("setup" ∷ "theme" ∷ [])
      ("notes.md" ∷ []) checkout none none

-- The landing page is provisional: its session's result has the receipt, and is not in the head yet.
abbrev sources : Sources ℕ
sources = record {
  commit_exists = λ path commit. str_eq commit "c1";
  is_ancestor = λ path commit head. false;
  receipt_file = λ path. parsed receipt;
}

abbrev landing_result : SessionRow
landing_result =
    let inserted =
      new_session (record { ts = "1"; now = 1 }) "job_1" "jules" "chat-1" (some "b0") 0 "evaluated"
        none in
    record inserted { result_commit_sha = some "c1" }

abbrev provisional_db : Db
provisional_db = record {
  events = [];
  jobs = record (job_in "awaiting_review") { node_id = "landing" } ∷ [];
  queue_records = [];
  sessions = landing_result ∷ [];
  results =
      record {
        result_id = "res_ses_1";
        job_id = "job_1";
        executor = "jules";
        received_at = "2026";
        outcome = "success";
        status = "needs_review";
        patch_path = none;
        summary_path = none;
        logs_path = none;
        acceptance_check = with_check (record {
          receipt_path = some "r.json";
          verification_status = "ok";
          verdict = "pass";
          integrity = none;
          criteria_findings = [];
        });
      }
      ∷ [];
}

abbrev provisional_project : ProjectGraph
provisional_project = record project {
  nodes = record { id = "landing"; status = some "provisional" } ∷ [];
}

abbrev blog : NodeData
blog = record landing { node_id = "blog"; depends_on = "landing" ∷ [] }

abbrev result_base : Option String
result_base = some "c1"

chained :
    chained_base sources provisional_db blog "site"
      (some provisional_project)
      (some "b0")
      (some "/src/site")
    ≡ ok result_base
unfolding chained_base provisional_deps node_status chained_on first_vouched result_sessions
    order_by find new_session session_receipt_path read_validated_receipt build_receipt subject_of
    execution_attempt_id show receipt_admits infer_completeness_status
chained = refl

chained_base-IsChained_example :
    IsBased sources provisional_db blog "site" provisional_project (some "b0") (some "/src/site") (
      chained_base sources provisional_db blog "site"
        (some provisional_project)
        (some "b0")
        (some "/src/site"))
chained_base-IsChained_example =
    chained_base-IsChained sources provisional_db blog "site" provisional_project (some "b0")
      (some "/src/site")
