-- ===== src/Heartbeat/Adoption.antt =====
-- scripts/runtime/heartbeat/adoption.py: work that was done outside the runtime.
pub mod Guards
use Prim.Native.String.{◌++◌ as text_append}
use gddp_runtime.Prelude.{
  ℕ, zero, suc, ◌+◌, ◌-◌, ◌≤◌, ◌<◌, String, Bool, true, false, ◌&&◌, ◌||◌, not, Option, none, some,
  List, [], ◌∷◌, ◌++◌, map, any, all, keep, All, nonempty, length, mem, if◌then◌else◌, ltb, leb,
  ◌==◌, str_eq, eq_iff, eq_refl, or_else, is_some, Result, ok, err, ◌>>=◌, ◌>>◌, guard, ◌≡◌, ◌≢◌,
  ◌↔◌, ◌⊎◌, inl, inr, refl, sym, ap, subst, ◌∙◌, arith, Bool-cases, Option-cases,
}
use gddp_runtime.Heartbeat.Graph.{NodeData, ProjectGraph}
use gddp_runtime.Heartbeat.Store.{
  column_is, Db, EventRow, JobRow, SessionRow, at, selected_executor, no_path, unset, update, find,
}
use gddp_runtime.Heartbeat.Scope.{is_active_job}
use gddp_runtime.Heartbeat.Recorder.{insert_job}
use gddp_runtime.Heartbeat.Sessions.{filled, Tick, new_session, insert_executor_session}
use gddp_runtime.Heartbeat.Jobs.{build_job}

-- `AdoptionError`, by its messages, and the `ValueError` of the session's insertion.
pub data AdoptionError : Type 0 where
  executor_unknown graph_missing node_terminal checkout_unresolved : AdoptionError
  commit_unresolved base_unresolved base_not_ancestor : AdoptionError
  active_job commit_recorded job_not_found : AdoptionError

abbrev pub terminal_statuses : List String
terminal_statuses = "complete" ∷ "deferred" ∷ []

-- The arguments of an adoption.
pub record Adoption : Type 0 where
  pub project_id : String
  pub node_id : String
  pub commit : String
  pub base : Option String
  pub executor : String
  pub dry_run : Bool

-- The registered adapters, the graph's files, and what git and the clock answer.
pub record AdoptionHost : Type 0 where
  pub adapters : List String
  pub load_project : String → Option ProjectGraph
  pub load_node : String → String → Option NodeData
  pub resolve_checkout : String → Option String
  pub resolve_commit : String → String → Option String
  pub is_ancestor : String → String → String → Bool
  pub runtime_root : String
  pub event_suffix : String
  pub short_commit : String → String
  pub tick : Tick

unfoldable pub found : {A : Type 0} → AdoptionError → Option A → Result AdoptionError A
found e none = err e
found e (some a) = ok a

unfoldable pub adopted_event : AdoptionHost → Adoption → ProjectGraph → NodeData → EventRow
adopted_event host a project node = record {
  event_id = text_append "evt_adopt_" host.event_suffix;
  received_at = at host.tick.now;
  source = "adopt_manual";
  event_type = "issue.opened";
  url = some (text_append "adopt://node: " node.node_id);
  branch = none;
  project_id = some project.project_id;
  repo = some project.repo;
  status = "mapped";
  scope_status = "pending";
  classification = unset;
  routing = some (selected_executor (some a.executor));
  raw_payload = no_path;
  claimed_at = none;
}

unfoldable pub adopted_job :
    AdoptionHost → Adoption → ProjectGraph → NodeData → Option String → JobRow
unfolding adopted_event
adopted_job host a project node base =
    let built =
      build_job host.tick node (adopted_event host a project node) project.project_id project.repo
        host.runtime_root a.executor in
    record built {
      status = "awaiting_result";
      queue_state = "awaiting_result";
      expected_base_commit_sha = base;
    }

unfoldable pub records_commit : String → SessionRow → Bool
records_commit commit s = column_is s.result_commit_sha commit

-- The `UPDATE` that gives the session its commit and its base.
unfoldable pub set_result : ℕ → (id commit : String) (base : Option String) → Db → Db
set_result now id commit base db = record db {
  sessions =
      update (λ s. str_eq s.session_db_id id)
        (λ s. record s {
          result_commit_sha = some commit;
          expected_base_commit_sha = base;
          updated_at = now;
        })
        db.sessions;
}

-- The session of a job that was just inserted, at the attempt that its row has.
unfoldable pub adopted_session :
    AdoptionHost
    → Adoption
    → NodeData
    → JobRow
    → String
    → Option String
    → Db
    → Result AdoptionError Db
unfolding set_result
adopted_session host a node job commit base db = do
  row ← found job_not_found (find (λ j. str_eq j.job_id job.job_id) db.jobs)
  let inserted =
      insert_executor_session
        (new_session host.tick job.job_id a.executor
          (text_append "adopt_"
            (text_append node.node_id (text_append "_" (host.short_commit commit))))
          none row.attempt "collected" none)
        db
  ok (set_result host.tick.now inserted.1 commit base inserted.0)

-- The rows are written in one transaction, which an exception rolls back.
unfoldable pub insert_rows :
    AdoptionHost
    → Adoption
    → ProjectGraph
    → NodeData
    → String
    → Option String
    → Db
    → Result AdoptionError (JobRow × Db)
unfolding adopted_job adopted_session
insert_rows host a project node commit base db =
    let job = adopted_job host a project node base in
    let events = db.events ++ adopted_event host a project node ∷ [] in
    do
      written ←
          adopted_session host a node job commit base
            (insert_job job (record db { events = events }))
      ok (job, written)

unfoldable pub write_rows :
    AdoptionHost
    → Adoption
    → ProjectGraph
    → NodeData
    → String
    → Option String
    → Db
    → Result AdoptionError (JobRow × Db)
unfolding insert_rows records_commit adopted_job
write_rows host a project node commit base db = do
  guard (not (any (is_active_job project.project_id node.node_id) db.jobs)) active_job
  guard (not (any (records_commit commit) db.sessions)) commit_recorded
  if a.dry_run
      then ok (adopted_job host a project node base, db)
      else insert_rows host a project node commit base db

-- `_resolve_commit(checkout, base) if base else None`
unfoldable pub resolved_base :
    AdoptionHost → String → Option String → Result AdoptionError (Option String)
unfolding found
resolved_base host path none = ok none
resolved_base host path (some base) = do
  sha ← found base_unresolved (host.resolve_commit path base)
  ok (some sha)

unfoldable pub base_precedes : AdoptionHost → String → String → Option String → Bool
base_precedes host path commit none = true
base_precedes host path commit (some base) = str_eq base "" || host.is_ancestor path base commit

-- The adoption of a commit that is found in the checkout.
unfoldable pub adopt_commit :
    AdoptionHost
    → Adoption
    → ProjectGraph
    → NodeData
    → (path commit : String) → Db
    → Result AdoptionError (JobRow × Db)
unfolding resolved_base base_precedes write_rows filled
adopt_commit host a project node path commit db = do
  base ← resolved_base host path (filled a.base)
  guard (base_precedes host path commit base) base_not_ancestor
  write_rows host a project node commit base db

unfoldable pub adopt_node :
    AdoptionHost → Adoption → ProjectGraph → NodeData → Db → Result AdoptionError (JobRow × Db)
unfolding found adopt_commit
adopt_node host a project node db = do
  guard (not (mem node.status terminal_statuses)) node_terminal
  path ← found checkout_unresolved (host.resolve_checkout project.repo)
  commit ← found commit_unresolved (host.resolve_commit path a.commit)
  adopt_commit host a project node path commit db

unfoldable pub adopt : AdoptionHost → Adoption → Db → Result AdoptionError (JobRow × Db)
unfolding found adopt_node
adopt host a db = do
  guard (mem a.executor host.adapters) executor_unknown
  project ← found graph_missing (host.load_project a.project_id)
  node ← found graph_missing (host.load_node a.project_id a.node_id)
  adopt_node host a project node db
