-- ===== src/Heartbeat/Planning.antt =====
-- scripts/runtime/heartbeat/runner.py, the planning phase: which events become reserved jobs.
pub mod Turns
pub mod Reservations
use Prim.Native.Nat.{Ordering, compare}
use Prim.Native.String.{◌++◌ as text_append, compare as compare_text}
use gddp_runtime.Prelude.{
  ℕ, zero, suc, ◌+◌, ◌-◌, ◌≤◌, ◌<◌, String, Bool, true, false, ◌&&◌, ◌||◌, not, Option, none, some,
  List, [], ◌∷◌, ◌++◌, map, any, all, keep, All, nonempty, length, mem, if◌then◌else◌, ltb, leb,
  ◌==◌, str_eq, eq_iff, eq_refl, or_else, is_some, Result, ok, err, ◌>>=◌, ◌>>◌, guard, ◌≡◌, ◌≢◌,
  ◌↔◌, ◌⊎◌, inl, inr, refl, sym, ap, subst, ◌∙◌, arith, Bool-cases, Option-cases,
}
use gddp_runtime.Heartbeat.Claims.{
  is_claimable, is_own_event, received_before, claims, claim_event, release_event, at_capacity,
  is_merged_pr_event, active_job_count,
}
use gddp_runtime.Prelude.Text.{codes, is_code}
use gddp_runtime.Prelude.Int.{pos, negsuc}
use gddp_runtime.Heartbeat.Policy.{Configured, absent, other, boolean, integer}
use gddp_runtime.Heartbeat.Graph.{NodeData, ProjectGraph}
use gddp_runtime.Heartbeat.Store.{
  column_is, Db, EventRow, JobRow, Stamp, Payload, no_path, unreadable, saved, Classification,
  update, count, find, order_by,
}
use gddp_runtime.Heartbeat.Scope.{
  ScopeCheckResult, safe, active_job_exists, project_missing, dependency_unsatisfied, check_scope,
}
use gddp_runtime.Heartbeat.Classifier.{classify}
use gddp_runtime.Heartbeat.Recorder.{
  mark_event_ignored, mark_event_classified, mark_event_scope_blocked, mark_event_mapped,
  insert_job, insert_queue_record,
}
use gddp_runtime.Heartbeat.Sessions.{
  Tick, new_session, execution_attempt_id, insert_executor_session,
}
use gddp_runtime.Heartbeat.Jobs.{build_job}
use gddp_runtime.Heartbeat.Chaining.{Sources, Deferral, chained_base}

-- A job that is reserved, with its event and its session.
pub record PlannedDispatch : Type 0 where
  pub event_id : String
  pub classification : Classification
  pub job : JobRow
  pub session_db_id : String

-- What one turn of the loop leads to: the next event, with or without a reserved job, or the end.
pub data Turn : Type 0 where
  passed full : Turn
  reserved : PlannedDispatch → Turn

-- What the loop has at its end, from a turn and from what the later turns give.
unfoldable pub after_turn : Turn → Db → Db × List PlannedDispatch → Db × List PlannedDispatch
after_turn passed db more = more
after_turn full db more = (db, [])
after_turn (reserved p) db more = (more.0, p ∷ more.1)

-- The arguments of a planning, and the parts of the checkout and of the clock that it reads. The
-- order of the `received_at` texts and the generated identifiers are the host's.
pub record Plan (F : Type 0) : Type 0 where
  pub project_id : String
  pub repo : String
  pub repo_path : Option String
  pub runtime_root : String
  pub ready_nodes : List NodeData
  pub graph : Option ProjectGraph
  pub missing_graph : String
  pub max_concurrent_jobs : Option ℕ
  pub expected_base_commit_sha : Option String
  pub head_sha : Option String
  pub stale_cutoff : ℕ
  pub tick : String → Tick
  pub text_order : Stamp → Stamp → Ordering
  pub preflight_error : String → Option String
  pub sources : Sources F

-- `missing` is the message of the reader's error.
unfoldable pub scope_reason : String → NodeData → ScopeCheckResult → String
scope_reason missing node safe = ""
scope_reason missing node (active_job_exists id) =
    text_append "Active job already exists for " (text_append node.node_id (text_append ": " id))
scope_reason missing node project_missing = missing
scope_reason missing node (dependency_unsatisfied dep status) =
    text_append "Dependency '"
      (text_append dep (text_append "' is not satisfied (status: " (text_append status ")")))

module _ {F : Type 0} (plan : Plan F) where
  -- The job of a node that passed the gate, its queue record and its session.
  unfoldable pub planned_job : EventRow → NodeData → Classification → Option String → JobRow
  planned_job e node c base =
      let built =
        build_job (plan.tick e.event_id) node e plan.project_id plan.repo plan.runtime_root
          c.executor_recommendation in
      record built { expected_base_commit_sha = base }

  unfoldable pub reserve_job : EventRow → NodeData → Classification → Option String → Db → Db × Turn
  unfolding planned_job
  reserve_job e node c base db =
      let t = plan.tick e.event_id in
      let job = planned_job e node c base in
      let queued = insert_queue_record t.ts t.now job.job_id (insert_job job db) in
      let inserted =
        insert_executor_session
          (new_session t job.job_id job.executor (execution_attempt_id job.job_id job.attempt) base
            job.attempt "dispatching" none)
          queued in
      (
        inserted.0,
        reserved (record {
          event_id = e.event_id;
          classification = c;
          job = job;
          session_db_id = inserted.1;
        }),
      )

  unfoldable pub reserve_scoped :
      EventRow → NodeData → Classification → Option String → ScopeCheckResult → Db → Db × Turn
  unfolding reserve_job
  reserve_scoped e node c base safe db = reserve_job e node c base db
  reserve_scoped e node c base reason db =
      (mark_event_scope_blocked e.event_id (scope_reason plan.missing_graph node reason) db, passed)

  -- The transaction that reserves: capacity, then the gate.
  unfoldable pub reserve : EventRow → NodeData → Classification → Option String → Db → Db × Turn
  unfolding reserve_scoped
  reserve e node c base db =
      if at_capacity plan.max_concurrent_jobs (active_job_count db plan.repo)
      then (release_event e.event_id db, full)
      else let marked = mark_event_classified e.event_id c db in
        reserve_scoped e node c base (check_scope node plan.project_id marked plan.graph) marked

  unfoldable pub plan_based :
      EventRow → NodeData → Classification → Result Deferral (Option String) → Db → Db × Turn
  unfolding reserve
  plan_based e node c (err reason) db = (release_event e.event_id db, passed)
  plan_based e node c (ok base) db = reserve e node c base db

  unfoldable pub dispatch_head : Option String
  dispatch_head = or_else plan.expected_base_commit_sha plan.head_sha

  unfoldable pub plan_checked :
      EventRow → NodeData → Classification → Option String → Db → Db × Turn
  unfolding plan_based dispatch_head
  plan_checked e node c (some error) db = (release_event e.event_id db, passed)
  plan_checked e node c none db =
      plan_based e node c
        (chained_base plan.sources db node plan.project_id plan.graph dispatch_head plan.repo_path)
        db

  unfoldable pub plan_matched : EventRow → Classification → Option NodeData → Db → Db × Turn
  unfolding plan_checked
  plan_matched e c none db = (mark_event_ignored e.event_id db, passed)
  plan_matched e c (some node) db =
      plan_checked e node c (plan.preflight_error c.executor_recommendation) db

  unfoldable pub plan_classified : EventRow → Option Classification → Db → Db × Turn
  unfolding plan_matched
  plan_classified e none db = (mark_event_ignored e.event_id db, passed)
  plan_classified e (some c) db =
      plan_matched e c (find (λ n. str_eq n.node_id c.matched_node_id) plan.ready_nodes) db

  unfoldable pub pending_events : Db → List EventRow
  pending_events db = order_by (received_before plan.text_order) (
      keep (λ e. is_own_event plan.project_id plan.repo e && is_claimable plan.stale_cutoff e)
        db.events)

  -- `handle_merged_pr` works on its own connection: what it leaves, and whether it returned.
  module _ (handle_merged_pr : EventRow → Db → Db × Bool) where
    unfoldable pub plan_returned : EventRow → Db × Bool → Db × Turn
    plan_returned e (db, true) = (mark_event_mapped e.event_id db, passed)
    plan_returned e (db, false) = (mark_event_ignored e.event_id db, passed)

    unfoldable pub plan_claimed : EventRow → Db → Db × Turn
    unfolding plan_returned plan_classified
    plan_claimed e db =
        if is_merged_pr_event e
        then plan_returned e (handle_merged_pr e db)
        else plan_classified e (classify e plan.ready_nodes) db

    unfoldable pub plan_won : EventRow → Db × Bool → Db × Turn
    unfolding plan_claimed
    plan_won e (db, true) = plan_claimed e db
    plan_won e (db, false) = (db, passed)

    unfoldable pub plan_event : EventRow → Db → Db × Turn
    unfolding plan_won
    plan_event e db =
        plan_won e
          (claim_event plan.stale_cutoff (plan.tick e.event_id).now plan.project_id e.event_id db)

    unfoldable pub plan_events : List EventRow → Db → Db × List PlannedDispatch
    unfolding plan_event after_turn
    plan_events [] db = (db, [])
    plan_events (e ∷ rest) db =
        let turn = plan_event e db in
        let more = plan_events rest turn.0 in after_turn turn.1 turn.0 more

    unfoldable pub plan_dispatches : Db → Db × List PlannedDispatch
    unfolding plan_events pending_events
    plan_dispatches db = plan_events (pending_events db) db
