-- ===== src/Heartbeat/Chaining.antt =====
-- scripts/runtime/heartbeat/runner.py, `_chained_base`: the commit that a node's attempt builds on.
pub mod Vouched
pub mod Based
use Prim.Native.Nat.{Ordering}
use Prim.Native.String.{◌++◌ as text_append, compare as compare_text}
use gddp_runtime.Prelude.{
  ℕ, zero, suc, ◌+◌, ◌-◌, ◌≤◌, ◌<◌, String, Bool, true, false, ◌&&◌, ◌||◌, not, Option, none, some,
  List, [], ◌∷◌, ◌++◌, map, any, all, keep, All, nonempty, length, mem, if◌then◌else◌, ltb, leb,
  ◌==◌, str_eq, eq_iff, eq_refl, or_else, is_some, Result, ok, err, ◌>>=◌, ◌>>◌, guard, ◌≡◌, ◌≢◌,
  ◌↔◌, ◌⊎◌, inl, inr, refl, sym, ap, subst, ◌∙◌, arith, Bool-cases, Option-cases,
}
use gddp_runtime.Heartbeat.Graph.{NodeRow, NodeData, ProjectGraph, node_status}
use gddp_runtime.Heartbeat.Store.{
  column_is, Db, JobRow, SessionRow, ResultRow, AcceptanceCell, nothing, not_json, not_an_object,
  with_check, find, order_by,
}
use gddp_runtime.Heartbeat.Sessions.{filled, execution_attempt_id, job_base}
use gddp_runtime.Verification.Admission.{
  Subject, ReceiptFile, AdmissionError, read_validated_receipt, receipt_admits,
}

-- `defer_reason`, by its messages.
pub data Deferral : Type 0 where
  several_provisional : List String → Deferral
  no_recorded_result : (dep : String) → Deferral
  no_checkout : (dep commit : String) → Deferral
  commit_not_found : (dep commit : String) → Deferral

-- What git answers about a checkout, and what the files at the paths of receipts hold.
pub record Sources (F : Type 0) : Type 0 where
  pub commit_exists : String → String → Bool
  pub is_ancestor : String → String → String → Bool
  pub receipt_file : String → ReceiptFile F

is_provisional : List NodeRow → String → Bool
is_provisional nodes dep = column_is (node_status nodes dep) "provisional"

unfoldable pub provisional_deps : List NodeRow → List String → List String
unfolding is_provisional
provisional_deps nodes deps = keep (is_provisional nodes) deps

-- `ORDER BY es.updated_at DESC, es.session_db_id DESC`
unfoldable pub updated_after : SessionRow → SessionRow → Bool
updated_after a b =
    ltb b.updated_at a.updated_at
    || (a.updated_at == b.updated_at
        && elim (compare_text a.session_db_id b.session_db_id) [ Ordering.gt ↦ true | _ ↦ false ])

unfoldable pub job_of : Db → SessionRow → Option JobRow
job_of db s = find (λ j. str_eq j.job_id s.job_id) db.jobs

-- The `WHERE` of the query, on a session and the job that it is joined with.
unfoldable pub is_result_of : String → String → SessionRow → Option JobRow → Bool
is_result_of project dep s none = false
is_result_of project dep s (some j) =
    str_eq j.project_id project
    && str_eq j.node_id dep
    && str_eq s.state "evaluated"
    && is_some s.result_commit_sha

unfoldable pub result_sessions : Db → String → String → List SessionRow
unfolding is_result_of job_of
result_sessions db project dep =
    order_by updated_after (keep (λ s. is_result_of project dep s (job_of db s)) db.sessions)

unfoldable pub receipt_path_of : AcceptanceCell → Option String
unfolding filled
receipt_path_of nothing = none
receipt_path_of not_json = none
receipt_path_of not_an_object = none
receipt_path_of (with_check c) = filled c.receipt_path

abbrev check_of : Option ResultRow → AcceptanceCell
check_of none = nothing
check_of (some r) = r.acceptance_check

unfoldable pub session_receipt_path : Db → SessionRow → Option String
unfolding receipt_path_of
session_receipt_path db s =
    receipt_path_of
      (check_of (find (λ r. str_eq r.result_id (text_append "res_" s.session_db_id)) db.results))

unfoldable pub attempt_of : SessionRow → String
attempt_of s =
    if str_eq s.execution_attempt_id ""
    then execution_attempt_id s.job_id s.attempt_index
    else s.execution_attempt_id

-- The subject that a receipt for a session's result must have.
unfoldable pub subject_of : Db → String → String → SessionRow → String → Subject
unfolding filled attempt_of
subject_of db project dep s commit = record {
  project_id = project;
  node_id = dep;
  job_id = s.job_id;
  execution_attempt_id = attempt_of s;
  result_commit_sha = commit;
  expected_base_commit_sha =
      or_else (filled s.expected_base_commit_sha) (filled (job_base (job_of db s)));
}

module _ {F : Type 0} (src : Sources F) where
  -- Whether the receipt at a path vouches for a subject.
  unfoldable pub admitted : ReceiptFile F → Subject → Bool
  admitted file subject = elim (read_validated_receipt file subject) [
    | ok r ↦ receipt_admits r
    | err e ↦ false
  ]

  unfoldable pub vouched_by : Option String → Subject → Bool
  unfolding admitted
  vouched_by none subject = false
  vouched_by (some path) subject = admitted (src.receipt_file path) subject

  -- One row of the loop: its result commit, if its receipt vouches for it.
  unfoldable pub vouched_commit : Db → String → String → SessionRow → Option String → Option String
  unfolding vouched_by
  vouched_commit db project dep s none = none
  vouched_commit db project dep s (some commit) =
      if vouched_by (session_receipt_path db s) (subject_of db project dep s commit)
      then some commit
      else none

  unfoldable pub first_vouched : Db → String → String → List SessionRow → Option String
  unfolding vouched_commit filled
  first_vouched db project dep [] = none
  first_vouched db project dep (s ∷ rest) =
      or_else (vouched_commit db project dep s (filled s.result_commit_sha))
        (first_vouched db project dep rest)

  -- `if head_sha and _is_ancestor(…)`
  unfoldable pub merged_already : Option String → String → String → Bool
  merged_already none repo_path commit = false
  merged_already (some head) repo_path commit =
      not (str_eq head "") && src.is_ancestor repo_path commit head

  unfoldable pub chained_to :
      Option String → Option String → String → Option String → Result Deferral (Option String)
  unfolding merged_already
  chained_to head repo_path dep none = err (no_recorded_result dep)
  chained_to head none dep (some commit) = err (no_checkout dep commit)
  chained_to head (some path) dep (some commit) = do
    guard (src.commit_exists path commit) (commit_not_found dep commit)
    ok (if merged_already head path commit then head else some commit)

  unfoldable pub chained_on :
      Db → String → Option String → Option String → List String → Result Deferral (Option String)
  unfolding chained_to
  chained_on db project head repo_path [] = ok head
  chained_on db project head repo_path (dep ∷ []) =
      chained_to head repo_path dep (first_vouched db project dep (result_sessions db project dep))
  chained_on db project head repo_path (dep ∷ more ∷ deps) =
      err (several_provisional (dep ∷ more ∷ deps))

  unfoldable pub chained_base :
      Db
      → NodeData
      → String
      → Option ProjectGraph
      → Option String
      → Option String
      → Result Deferral (Option String)
  unfolding chained_on filled
  chained_base db node project_id none head repo_path = ok head
  chained_base db node project_id (some p) head repo_path =
      chained_on db project_id head (filled repo_path) (provisional_deps p.nodes node.depends_on)
