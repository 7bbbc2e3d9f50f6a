-- ===== src/Heartbeat/Scope/Gate.antt =====
-- What the gate lets through.
use gddp_runtime.Prelude.{
  String, Bool, true, false, Option, none, some, List, [], ◌∷◌, any, All, ◌≡◌, ◌↔◌, inl, inr, refl,
  sym, ◌∙◌, arith, Bool-cases,
}
use gddp_runtime.Heartbeat.Scope.{
  dep_status_of, ScopeCheckResult, safe, is_active_job, dep_status, check_deps, check_project,
  after_job, check_scope,
}
use gddp_runtime.Heartbeat.Graph.{
  NodeRow, NodeData, ProjectGraph, find_row, status_of, node_status, is_satisfied,
}
use gddp_runtime.Heartbeat.Store.{Db, JobRow, find}

dep_of_satisfied :
    (r : Option NodeRow) → is_satisfied (some (dep_status_of r)) ≡ is_satisfied (status_of r)
unfolding dep_status_of
dep_of_satisfied none = refl
dep_of_satisfied (some n) = go n.status
  where
    go :
        (t : Option String)
        → is_satisfied (some (elim t [ none ↦ "pending" | some s ↦ s ])) ≡ is_satisfied t
    go none = refl
    go (some s) = refl

dep_status_satisfied :
    (nodes : List NodeRow) (d : String)
    → is_satisfied (some (dep_status nodes d)) ≡ is_satisfied (node_status nodes d)
unfolding dep_status node_status
dep_status_satisfied nodes d = dep_of_satisfied (find_row d nodes)

abbrev Satisfied : List NodeRow → List String → Type 0
Satisfied nodes deps = All (λ d. is_satisfied (node_status nodes d) ≡ true) deps

check_deps-safe :
    (nodes : List NodeRow) (deps : List String)
    → (check_deps nodes deps ≡ safe) ↔ Satisfied nodes deps
unfolding check_deps
check_deps-safe nodes [] = (λ h. tt, λ h. refl)
check_deps-safe nodes (d ∷ deps) = elim (Bool-cases (is_satisfied (some (dep_status nodes d)))) [
  | inl e ↦ (
    λ h. (
      sym (dep_status_satisfied nodes d) ∙ e,
      (check_deps-safe nodes deps).0 (rw (e, check_deps) at h),
    ),
    λ h. rw (e, check_deps) ((check_deps-safe nodes deps).1 h.1),
  )
  | inr e ↦ (
    λ h. absurd (cc (rw (e, check_deps) at h)),
    λ h. absurd (cc (dep_status_satisfied nodes d, h.0)),
  )
]

check_project-safe :
    (p : ProjectGraph) (deps : List String)
    → (check_project (some p) deps ≡ safe) ↔ Satisfied p.nodes deps
unfolding check_project
check_project-safe p [] = (λ h. tt, λ h. refl)
check_project-safe p (d ∷ deps) = check_deps-safe p.nodes (d ∷ deps)

find-any : {A : Type 0} (p : A → Bool) (xs : List A) → (find p xs ≡ none) ↔ (any p xs ≡ false)
unfolding find
find-any p [] = (λ h. refl, λ h. refl)
find-any p (x ∷ xs) = (λ h. ground (arith, find-any p xs), λ h. ground (arith, find-any p xs))

after_job-safe :
    (j : Option JobRow) (r : ScopeCheckResult) → (after_job j r ≡ safe) ↔ ((j ≡ none) × (r ≡ safe))
unfolding after_job
after_job-safe none r = (λ h. (refl, h), λ h. h.1)
after_job-safe (some j) r = (λ h. absurd (cc), λ h. absurd (cc (h.0)))

-- Whatever the graph, no job of a node that is let through is in flight.
pub check_scope-no_active :
    (node : NodeData) (project_id : String) (db : Db) (project : Option ProjectGraph)
    → check_scope node project_id db project ≡ safe
    → any (is_active_job project_id node.node_id) db.jobs ≡ false
unfolding check_scope
check_scope-no_active node project_id db project h =
    (find-any _ db.jobs).0 ((after_job-safe _ _).0 h).0

-- The gate lets a node through exactly where no job of the node is ready, running, awaiting its
-- result or awaiting review, and every dependency is complete or provisional in the graph.
pub check_scope-safe_iff :
    (node : NodeData) (project_id : String) (db : Db) (p : ProjectGraph)
    → (check_scope node project_id db (some p) ≡ safe) ↔ (
        (any (is_active_job project_id node.node_id) db.jobs ≡ false)
        × All (λ d. is_satisfied (node_status p.nodes d) ≡ true) node.depends_on)
unfolding check_scope
check_scope-safe_iff node project_id db p = (
  λ h.
      let a = (after_job-safe _ _).0 h in
      ((find-any _ db.jobs).0 a.0, (check_project-safe p node.depends_on).0 a.1),
  λ h.
      (after_job-safe _ _).1
        ((find-any _ db.jobs).1 h.0, (check_project-safe p node.depends_on).1 h.1),
)
