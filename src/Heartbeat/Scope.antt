-- ===== src/Heartbeat/Scope.antt =====
-- scripts/runtime/heartbeat/scope_checker.py: the gate before a job is created.
pub mod Gate
use gddp_runtime.Prelude.{
  ℕ, zero, suc, ◌+◌, ◌-◌, ◌≤◌, ◌<◌, String, Bool, true, false, ◌&&◌, ◌||◌, not, Option, none, some,
  List, [], ◌∷◌, ◌++◌, map, any, all, keep, All, nonempty, length, mem, if◌then◌else◌, ltb, leb,
  ◌==◌, str_eq, eq_iff, eq_refl, or_else, is_some, Result, ok, err, ◌>>=◌, ◌>>◌, guard, ◌≡◌, ◌≢◌,
  ◌↔◌, ◌⊎◌, inl, inr, refl, sym, ap, subst, ◌∙◌, arith, Bool-cases, Option-cases,
}
use gddp_runtime.Heartbeat.Graph.{
  NodeRow, NodeData, ProjectGraph, find_row, status_of, is_satisfied,
}
use gddp_runtime.Heartbeat.Store.{Db, JobRow, find}

-- The statuses of a job that is in flight.
abbrev pub active_job_statuses : List String
active_job_statuses = "ready" ∷ "running" ∷ "awaiting_result" ∷ "awaiting_review" ∷ []

unfoldable pub is_active_job : String → String → JobRow → Bool
is_active_job project node j =
    str_eq j.project_id project && str_eq j.node_id node && mem j.status active_job_statuses

-- The outcome, with the reason of a refusal.
pub data ScopeCheckResult : Type 0 where
  safe : ScopeCheckResult
  active_job_exists : (job_id : String) → ScopeCheckResult
  project_missing : ScopeCheckResult
  dependency_unsatisfied : (dep_id status : String) → ScopeCheckResult

-- `node_status.get(dep_id, "unknown")`, where a row without a status is "pending".
unfoldable pub dep_status_of : Option NodeRow → String
dep_status_of none = "unknown"
dep_status_of (some n) = elim n.status [ none ↦ "pending" | some s ↦ s ]

unfoldable pub dep_status : List NodeRow → String → String
unfolding dep_status_of
dep_status nodes dep = dep_status_of (find_row dep nodes)

unfoldable pub check_deps : List NodeRow → List String → ScopeCheckResult
check_deps nodes [] = safe
check_deps nodes (dep ∷ deps) =
    let rest = check_deps nodes deps in
    elim (is_satisfied (some (dep_status nodes dep))) [
      | true ↦ rest
      | false ↦ dependency_unsatisfied dep (dep_status nodes dep)
    ]

unfoldable pub check_project : Option ProjectGraph → List String → ScopeCheckResult
unfolding check_deps
check_project project [] = safe
check_project none (d ∷ deps) = project_missing
check_project (some p) (d ∷ deps) = check_deps p.nodes (d ∷ deps)

unfoldable pub after_job : Option JobRow → ScopeCheckResult → ScopeCheckResult
after_job none rest = rest
after_job (some j) rest = active_job_exists j.job_id

unfoldable pub check_scope : NodeData → String → Db → Option ProjectGraph → ScopeCheckResult
unfolding check_project after_job
check_scope node project_id db project =
    after_job (find (is_active_job project_id node.node_id) db.jobs)
      (check_project project node.depends_on)
