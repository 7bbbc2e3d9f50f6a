-- ===== src/Tests/Adoptions.antt =====
-- The theorems on adoptions and recoveries, at a small database.
use gddp_runtime.Prelude.{
  Among, eq_iff, str_eq, ◌≢◌, ◌⊎◌, ◌<◌, ◌≤◌, inl, arith, true, false, none, some, [], ◌∷◌, All, ok,
  ◌≡◌, refl,
}
use gddp_runtime.Tests.Samples.{project, landing, job_in}
use gddp_runtime.Heartbeat.Store.{Db, JobRow, SessionRow, find, set_if}
use gddp_runtime.Heartbeat.Sessions.{new_session, insert_executor_session, filled}
use gddp_runtime.Heartbeat.Adoption.{
  adopt_node, adopt_commit, write_rows, insert_rows, adopted_session, set_result, adopted_event,
  resolved_base, base_precedes, found, Adoption, AdoptionHost, adopt, adopted_job,
}
use gddp_runtime.Heartbeat.Recorder.{insert_job}
use gddp_runtime.Heartbeat.Jobs.{build_job}
use gddp_runtime.Heartbeat.Adoption.Guards.{IsAdopted, adopt-IsAdopted}
use gddp_runtime.Heartbeat.Recovery.{recover_stale_dispatching_sessions}
use gddp_runtime.Heartbeat.Recovery.Expired.{recover_stale_dispatching_sessions_lem}

abbrev host : AdoptionHost
host = record {
  adapters = "local_subprocess" ∷ [];
  load_project = λ id. some project;
  load_node = λ id node. some landing;
  resolve_checkout = λ repo. some "/src/site";
  resolve_commit = λ path ref. some "c1";
  is_ancestor = λ path base commit. true;
  runtime_root = "/var/runtime";
  event_suffix = "1";
  short_commit = λ commit. commit;
  tick = record { ts = "20260101"; now = 9 };
}

abbrev request : Adoption
request = record {
  project_id = "site";
  node_id = "landing";
  commit = "main";
  base = none;
  executor = "local_subprocess";
  dry_run = false;
}

abbrev empty_db : Db
empty_db = record { events = []; jobs = []; queue_records = []; sessions = []; results = [] }

abbrev job : JobRow
job = adopted_job host request project landing none

-- The session, collected, with the commit.
abbrev collected : SessionRow
collected =
    let inserted =
      new_session host.tick job.job_id "local_subprocess" "adopt_landing_c1" none 0 "collected"
        none in
    record inserted { result_commit_sha = some "c1" }

abbrev adopted_db : Db
adopted_db = record empty_db {
  events = adopted_event host request project landing ∷ [];
  jobs = job ∷ [];
  sessions = collected ∷ [];
}

adopted : adopt host request empty_db ≡ ok (job, adopted_db)
unfolding adopt adopt_node adopt_commit write_rows insert_rows adopted_session set_result
    insert_executor_session new_session insert_job find adopted_job build_job resolved_base
    base_precedes set_if filled found
adopted = refl

adopt-IsAdopted_example : IsAdopted host request empty_db job adopted_db
adopt-IsAdopted_example = adopt-IsAdopted host request empty_db adopted_db job adopted

-- A reservation of attempt 0 that was last touched at 1.
abbrev reserved : SessionRow
reserved =
    new_session (record { ts = "1"; now = 1 }) "job_1" "jules" "job_1:attempt:0" none 0
      "dispatching" none

abbrev db : Db
db = record empty_db { jobs = job_in "ready" ∷ []; sessions = reserved ∷ [] }

found_job : find (λ i. str_eq i.job_id reserved.job_id) db.jobs ≡ some (job_in "ready")
unfolding find new_session
found_job = refl

is_reserved : reserved.state ≡ "dispatching"
unfolding new_session
is_reserved = refl

lease_over : reserved.updated_at ≤ 5
unfolding new_session
lease_over = omega arith

of_attempt : reserved.attempt_index ≡ (job_in "ready").attempt
unfolding new_session
of_attempt = refl

not_cancelled : (job_in "ready").status ≢ "cancelled"
not_cancelled q = let e : false ≡ true = (eq_iff "ready" "cancelled").1 q in absurd (cc)

recover_stale_dispatching_sessions_lem_example :
    All
      (λ t.
        (t.session_db_id ≢ reserved.session_db_id)
        ⊎ ((t.state ≢ "dispatching") ⊎ (5 < t.updated_at)))
      (recover_stale_dispatching_sessions 9 5 (some "acme/site") db).0.sessions
    × All
        (λ x.
          ((x.state ≡ "dispatching") × (x.updated_at ≤ 5))
          ⊎ Among x (recover_stale_dispatching_sessions 9 5 (some "acme/site") db).0.sessions)
        db.sessions
recover_stale_dispatching_sessions_lem_example =
    recover_stale_dispatching_sessions_lem 9 5 (some "acme/site") db reserved (job_in "ready")
      (inl refl) found_job is_reserved lease_over of_attempt not_cancelled refl
