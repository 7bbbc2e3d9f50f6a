-- ===== src/Heartbeat/Planning/Reservations.antt =====
-- A planning is a run of reservations, and what holds of such runs.
use mathlib.Core.List.{append_assoc, append-nil}
use gddp_runtime.Prelude.{
  ℕ, ◌+◌, ◌≤◌, ◌<◌, String, Bool, true, false, some, List, [], ◌∷◌, ◌++◌, map, any, All, length,
  leb, eq_iff, eq_refl, ◌≡◌, ◌⊎◌, inl, inr, refl, sym, ap, subst, ◌∙◌, arith, Bool-cases,
}
use gddp_runtime.Heartbeat.Store.{Db, EventRow, JobRow, SessionRow, count}
use gddp_runtime.Heartbeat.Store.Rows.{count-snoc, keep_none}
use gddp_runtime.Heartbeat.Scope.{is_active_job}
use gddp_runtime.Heartbeat.Planning.{
  Plan, PlannedDispatch, Turn, passed, full, reserved, after_turn, plan_event, plan_events,
  plan_dispatches, pending_events,
}
use gddp_runtime.Heartbeat.Claims.{
  at_capacity, takes_capacity, active_job_count, is_merged_pr_event,
}
use gddp_runtime.Heartbeat.Planning.Turns.{IsReservation, Effect, plan_event-Effect}

module _ {F : Type 0} (plan : Plan F) where
  -- The abstract run: from some jobs and sessions, one reservation after another, to a database.
  pub data Reserves : List JobRow → List SessionRow → List PlannedDispatch → Db → Type 0 where
    done : {after : Db} → Reserves after.jobs after.sessions [] after
    next :
        {jobs : List JobRow} {sessions : List SessionRow} {p : PlannedDispatch} {mid : Db}
        {ps : List PlannedDispatch} {after : Db}
        → IsReservation plan jobs sessions p mid
        → Reserves mid.jobs mid.sessions ps after
        → Reserves jobs sessions (p ∷ ps) after

  module _ (handle_merged_pr : EventRow → Db → Db × Bool) where
    turn-Reserves :
        (db : Db) (after : Db) (t : Turn) (more : Db × List PlannedDispatch)
        → Effect plan db.jobs db.sessions after t
        → Reserves after.jobs after.sessions more.1 more.0
        → Reserves db.jobs db.sessions (after_turn t after more).1 (after_turn t after more).0
    unfolding after_turn
    turn-Reserves db after passed more (j, s) r = rw (← j, ← s) r
    turn-Reserves db after full more (j, s) r = rw (← j, ← s) done
    turn-Reserves db after (reserved p) more e r = next e r

    plan_events-Reserves :
        (events : List EventRow) (db : Db)
        → All (λ e. is_merged_pr_event e ≡ false) events
        → Reserves db.jobs db.sessions
            (plan_events plan handle_merged_pr events db).1
            (plan_events plan handle_merged_pr events db).0
    unfolding plan_events
    plan_events-Reserves [] db u = done
    plan_events-Reserves (e ∷ rest) db u =
        let turn = plan_event plan handle_merged_pr e db in
        turn-Reserves db turn.0 turn.1 (plan_events plan handle_merged_pr rest turn.0)
          (plan_event-Effect plan e handle_merged_pr u.0 db) (plan_events-Reserves rest turn.0 u.1)

  -- A planning of events that are no merged pull requests changes the jobs and the sessions only by
  -- reservations, one for each dispatch that it returns and in their order: each finds room, and no
  -- job of its node in flight, in what the ones before it left.
  pub plan_dispatches-Reserves :
      (handle_merged_pr : EventRow → Db → Db × Bool) (db : Db)
      → All (λ e. is_merged_pr_event e ≡ false) (pending_events plan db)
      → Reserves db.jobs db.sessions
          (plan_dispatches plan handle_merged_pr db).1
          (plan_dispatches plan handle_merged_pr db).0
  unfolding plan_dispatches
  plan_dispatches-Reserves handle_merged_pr db u = plan_events-Reserves handle_merged_pr _ db u

  reserved_takes :
      (jobs : List JobRow) (sessions : List SessionRow) (p : PlannedDispatch) (after : Db)
      → IsReservation plan jobs sessions p after
      → count (takes_capacity plan.repo) after.jobs ≡ count (takes_capacity plan.repo) jobs + 1
  unfolding takes_capacity
  reserved_takes jobs sessions p after r =
      let takes : takes_capacity plan.repo p.job ≡ true =
        rw (r.repo, r.ready, eq_refl plan.repo) refl in
      rw (r.stored, count-snoc, takes) refl

  -- The slots that a run takes, and the bound that it keeps.
  Reserves-bounded :
      {jobs : List JobRow} {sessions : List SessionRow} {ps : List PlannedDispatch} {after : Db}
      (cap : ℕ)
      → plan.max_concurrent_jobs ≡ some cap
      → Reserves jobs sessions ps after
      → (count (takes_capacity plan.repo) after.jobs
          ≡ count (takes_capacity plan.repo) jobs + length ps)
        × ((ps ≡ []) ⊎ (count (takes_capacity plan.repo) after.jobs ≤ cap))
  unfolding at_capacity
  Reserves-bounded cap c done = (omega arith, inl refl)
  Reserves-bounded {jobs} {sessions} {ps = p ∷ ps} {after} cap c (next {mid} r more) =
      let one = reserved_takes jobs sessions p mid r in
      let rest = Reserves-bounded cap c more in
      let free : leb cap (count (takes_capacity plan.repo) jobs) ≡ false = rw c at r.room in
      let room : count (takes_capacity plan.repo) jobs < cap = ground arith in
      (
        omega (arith, one, rest.0),
        inr (elim rest.1 [
          | inl e ↦
              let last : count (takes_capacity plan.repo) after.jobs
                  ≡ count (takes_capacity plan.repo) mid.jobs + 0 =
                rw e at rest.0 in
              omega (arith, one, last)
          | inr le ↦ le
        ]),
      )

  module _ (handle_merged_pr : EventRow → Db → Db × Bool) (db : Db)
      (unmerged : All (λ e. is_merged_pr_event e ≡ false) (pending_events plan db)) where
    -- Under a configured capacity, a planning of events that are no merged pull requests takes exactly
    -- one slot for each dispatch that it returns, and where it returns any, the jobs of the
    -- repository that are ready or running are no more than the capacity at its end.
    pub plan_dispatches-bounded :
        (cap : ℕ)
        → plan.max_concurrent_jobs ≡ some cap
        → (active_job_count (plan_dispatches plan handle_merged_pr db).0 plan.repo
            ≡ active_job_count db plan.repo + length (plan_dispatches plan handle_merged_pr db).1)
          × (((plan_dispatches plan handle_merged_pr db).1 ≡ [])
              ⊎ (active_job_count (plan_dispatches plan handle_merged_pr db).0 plan.repo ≤ cap))
    unfolding active_job_count
    plan_dispatches-bounded cap c =
        Reserves-bounded cap c (plan_dispatches-Reserves handle_merged_pr db unmerged)

  -- At most one job of a node of the project is in flight.
  abbrev pub IsSingle : List JobRow → Type 0
  IsSingle jobs = (node : String) → count (is_active_job plan.project_id node) jobs ≤ 1

  IsReservation-IsSingle :
      (jobs : List JobRow) (sessions : List SessionRow) (p : PlannedDispatch) (after : Db)
      → IsReservation plan jobs sessions p after
      → IsSingle jobs
      → IsSingle after.jobs
  unfolding is_active_job
  IsReservation-IsSingle jobs sessions p after r single node =
      elim (Bool-cases (is_active_job plan.project_id node p.job)) [
        | inl t ↦
            let same : p.job.node_id ≡ node = (eq_iff p.job.node_id node).0 (ground arith) in
            let none_before : any (is_active_job plan.project_id node) jobs ≡ false =
              subst (λ n. any (is_active_job plan.project_id n) jobs ≡ false) same r.single in
            rw
              (
                r.stored,
                count-snoc,
                t,
                keep_none (is_active_job plan.project_id node) jobs none_before,
              )
              (omega arith)
        | inr t ↦ rw (r.stored, count-snoc, t) (omega (arith, single node))
      ]

  Reserves-IsSingle :
      {jobs : List JobRow} {sessions : List SessionRow} {ps : List PlannedDispatch} {after : Db}
      → Reserves jobs sessions ps after
      → IsSingle jobs
      → IsSingle after.jobs
  Reserves-IsSingle done single = single
  Reserves-IsSingle {jobs} {sessions} {ps = p ∷ ps} (next {mid} r more) single =
      Reserves-IsSingle more (IsReservation-IsSingle jobs sessions p mid r single)

  -- Where at most one job of each node of the project is ready, running, awaiting its result or
  -- awaiting review, a planning of events that are no merged pull requests keeps it so, however many
  -- of the events ask for the same node.
  pub plan_dispatches-IsSingle :
      (handle_merged_pr : EventRow → Db → Db × Bool) (db : Db)
      → All (λ e. is_merged_pr_event e ≡ false) (pending_events plan db)
      → IsSingle db.jobs
      → IsSingle (plan_dispatches plan handle_merged_pr db).0.jobs
  plan_dispatches-IsSingle handle_merged_pr db unmerged single =
      Reserves-IsSingle (plan_dispatches-Reserves handle_merged_pr db unmerged) single

  -- The sessions that were opened for some dispatches, in their order.
  abbrev pub IsOpened : List PlannedDispatch → List SessionRow → Type 0
  IsOpened [] [] = Unit
  IsOpened (p ∷ ps) (s ∷ ss) =
      ((s.session_db_id ≡ p.session_db_id)
        × (s.job_id ≡ p.job.job_id)
        × (s.state ≡ "dispatching")
        × (s.expected_base_commit_sha ≡ p.job.expected_base_commit_sha))
      × IsOpened ps ss
  IsOpened _ _ = ⊥

  Reserves-appends :
      {jobs : List JobRow} {sessions : List SessionRow} {ps : List PlannedDispatch} {after : Db}
      → Reserves jobs sessions ps after
      → (after.jobs ≡ jobs ++ map (λ p. p.job) ps)
        × ((opened : List SessionRow) × (after.sessions ≡ sessions ++ opened) × IsOpened ps opened)
  Reserves-appends done = (sym (append-nil _), ([], sym (append-nil _), tt))
  Reserves-appends {jobs} {sessions} {ps = p ∷ ps} (next {mid} r more) =
      let rest = Reserves-appends more in
      (
        rest.0 ∙ ap (λ l. l ++ map (λ p. p.job) ps) r.stored ∙ append_assoc jobs _ _,
        (
          r.session ∷ rest.1.0,
          rest.1.1 ∙ ap (λ l. l ++ rest.1.0) r.opened ∙ append_assoc sessions _ _,
          ((r.named, r.of_job, r.dispatching, r.base), rest.1.2),
        ),
      )

  -- A planning of events that are no merged pull requests adds to the jobs exactly the jobs of the
  -- dispatches that it returns, and to the sessions one session for each, in the same order: of that
  -- job, under the identifier of the dispatch, in state "dispatching" and on the job's base.
  pub plan_dispatches-IsOpened :
      (handle_merged_pr : EventRow → Db → Db × Bool) (db : Db)
      → All (λ e. is_merged_pr_event e ≡ false) (pending_events plan db)
      → ((plan_dispatches plan handle_merged_pr db).0.jobs
          ≡ db.jobs ++ map (λ p. p.job) (plan_dispatches plan handle_merged_pr db).1)
        × ((opened : List SessionRow) × ((plan_dispatches plan handle_merged_pr db).0.sessions
              ≡ db.sessions ++ opened)
            × IsOpened (plan_dispatches plan handle_merged_pr db).1 opened)
  plan_dispatches-IsOpened handle_merged_pr db unmerged =
      Reserves-appends (plan_dispatches-Reserves handle_merged_pr db unmerged)
