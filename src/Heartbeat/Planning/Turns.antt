-- ===== src/Heartbeat/Planning/Turns.antt =====
-- What one turn of the planning loop does to the jobs and the sessions.
use gddp_runtime.Prelude.{
  String, Bool, true, false, Option, none, some, List, [], ◌∷◌, ◌++◌, any, Result, ok, err, ◌≡◌,
  ◌⊎◌, inl, inr, refl, Bool-cases,
}
use gddp_runtime.Heartbeat.Scope.Gate.{check_scope-no_active}
use gddp_runtime.Heartbeat.Planning.{
  Deferral, Plan, PlannedDispatch, Turn, passed, full, reserved, plan_event, plan_won, plan_claimed,
  plan_classified, plan_matched, plan_checked, plan_based, reserve, reserve_scoped, reserve_job,
  planned_job,
}
use gddp_runtime.Heartbeat.Claims.{
  at_capacity, claim_event, release_event, takes_capacity, active_job_count, is_merged_pr_event,
}
use gddp_runtime.Heartbeat.Graph.{NodeData}
use gddp_runtime.Heartbeat.Store.{Db, EventRow, JobRow, SessionRow, Classification, count}
use gddp_runtime.Heartbeat.Scope.{ScopeCheckResult, check_scope, is_active_job}
use gddp_runtime.Heartbeat.Recorder.{
  mark_event_ignored, mark_event_classified, mark_event_scope_blocked, insert_job,
  insert_queue_record,
}
use gddp_runtime.Heartbeat.Sessions.{new_session, insert_executor_session}
use gddp_runtime.Heartbeat.Jobs.{build_job}

module _ {F : Type 0} (plan : Plan F) where
  -- A reservation, on the jobs and the sessions that it finds: a job that is ready, in the project's
  -- repository, of a node that had no job in flight, within the capacity, and a session for it.
  pub record IsReservation (jobs : List JobRow) (sessions : List SessionRow) (p : PlannedDispatch)
      (after : Db) : Type 0 where
    pub stored : after.jobs ≡ jobs ++ p.job ∷ []
    pub session : SessionRow
    pub opened : after.sessions ≡ sessions ++ session ∷ []
    pub named : session.session_db_id ≡ p.session_db_id
    pub of_job : session.job_id ≡ p.job.job_id
    pub dispatching : session.state ≡ "dispatching"
    pub base : session.expected_base_commit_sha ≡ p.job.expected_base_commit_sha
    pub project : p.job.project_id ≡ plan.project_id
    pub repo : p.job.repo ≡ plan.repo
    pub ready : p.job.status ≡ "ready"
    pub room : at_capacity plan.max_concurrent_jobs (count (takes_capacity plan.repo) jobs) ≡ false
    pub single : any (is_active_job plan.project_id p.job.node_id) jobs ≡ false

  -- The effect of a turn: none on jobs and sessions, or one reservation.
  abbrev pub Effect : List JobRow → List SessionRow → Db → Turn → Type 0
  Effect jobs sessions after passed = (after.jobs ≡ jobs) × (after.sessions ≡ sessions)
  Effect jobs sessions after full = (after.jobs ≡ jobs) × (after.sessions ≡ sessions)
  Effect jobs sessions after (reserved p) = IsReservation jobs sessions p after

  module _ (e : EventRow) where
    module _ (node : NodeData) (c : Classification) where
      reserve_job-Effect :
          (base : Option String) (db : Db)
          → at_capacity plan.max_concurrent_jobs (count (takes_capacity plan.repo) db.jobs) ≡ false
          → any (is_active_job plan.project_id node.node_id) db.jobs ≡ false
          → Effect db.jobs db.sessions
              (reserve_job plan e node c base db).0
              (reserve_job plan e node c base db).1
      unfolding reserve_job planned_job build_job insert_job insert_queue_record
          insert_executor_session new_session
      reserve_job-Effect base db r s = record {
        stored = refl;
        session = _;
        opened = refl;
        named = refl;
        of_job = refl;
        dispatching = refl;
        base = refl;
        project = refl;
        repo = refl;
        ready = refl;
        room = r;
        single = s;
      }

      reserve_scoped-Effect :
          (base : Option String) (db : Db) (r : ScopeCheckResult)
          → check_scope node plan.project_id db plan.graph ≡ r
          → at_capacity plan.max_concurrent_jobs (count (takes_capacity plan.repo) db.jobs) ≡ false
          → Effect db.jobs db.sessions
              (reserve_scoped plan e node c base r db).0
              (reserve_scoped plan e node c base r db).1
      unfolding reserve_scoped mark_event_scope_blocked
      reserve_scoped-Effect base db ScopeCheckResult.safe s room =
          reserve_job-Effect base db room
            (check_scope-no_active node plan.project_id db plan.graph s)
      reserve_scoped-Effect base db (ScopeCheckResult.active_job_exists j) s room = (refl, refl)
      reserve_scoped-Effect base db ScopeCheckResult.project_missing s room = (refl, refl)
      reserve_scoped-Effect base db (ScopeCheckResult.dependency_unsatisfied d t) s room =
          (refl, refl)

      reserve-Effect :
          (base : Option String) (db : Db)
          → Effect db.jobs db.sessions
              (reserve plan e node c base db).0
              (reserve plan e node c base db).1
      unfolding reserve release_event mark_event_classified active_job_count
      reserve-Effect base db =
          split (Bool-cases (at_capacity plan.max_concurrent_jobs (active_job_count db plan.repo)))
        where
          split :
              (at_capacity plan.max_concurrent_jobs (active_job_count db plan.repo) ≡ true)
                ⊎ (at_capacity plan.max_concurrent_jobs (active_job_count db plan.repo) ≡ false)
              → Effect db.jobs db.sessions
                  (reserve plan e node c base db).0
                  (reserve plan e node c base db).1
          split (inl t) = rw t (refl, refl)
          split (inr t) =
              rw t (reserve_scoped-Effect base (mark_event_classified e.event_id c db) _ refl t)

      plan_checked-Effect :
          (error : Option String) (db : Db)
          → Effect db.jobs db.sessions
              (plan_checked plan e node c error db).0
              (plan_checked plan e node c error db).1
      unfolding plan_checked release_event
      plan_checked-Effect (some m) db = (refl, refl)
      plan_checked-Effect none db = based _
        where
          based :
              (b : Result Deferral (Option String))
              → Effect db.jobs db.sessions
                  (plan_based plan e node c b db).0
                  (plan_based plan e node c b db).1
          based (err r) = (refl, refl)
          based (ok b) = reserve-Effect b db

    matched-Effect :
        (c : Classification) (o : Option NodeData) (db : Db)
        → Effect db.jobs db.sessions (plan_matched plan e c o db).0 (plan_matched plan e c o db).1
    unfolding plan_matched mark_event_ignored
    matched-Effect c none db = (refl, refl)
    matched-Effect c (some node) db = plan_checked-Effect node c _ db

    classified-Effect :
        (o : Option Classification) (db : Db)
        → Effect db.jobs db.sessions (plan_classified plan e o db).0 (plan_classified plan e o db).1
    unfolding plan_classified mark_event_ignored
    classified-Effect none db = (refl, refl)
    classified-Effect (some c) db = matched-Effect c _ db

    module _ (handle_merged_pr : EventRow → Db → Db × Bool)
        (unmerged : is_merged_pr_event e ≡ false) where
      won-Effect :
          (db : Db) (won : Bool)
          → Effect db.jobs db.sessions
              (plan_won plan handle_merged_pr e (db, won)).0
              (plan_won plan handle_merged_pr e (db, won)).1
      unfolding plan_won plan_claimed
      won-Effect db true = rw unmerged (classified-Effect _ db)
      won-Effect db false = (refl, refl)

      -- A turn on an event that is no merged pull request.
      pub plan_event-Effect :
          (db : Db)
          → Effect db.jobs db.sessions
              (plan_event plan handle_merged_pr e db).0
              (plan_event plan handle_merged_pr e db).1
      unfolding plan_event claim_event
      plan_event-Effect db =
          won-Effect
            (claim_event plan.stale_cutoff (plan.tick e.event_id).now plan.project_id e.event_id
              db).0
            _
