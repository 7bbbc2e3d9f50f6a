-- ===== src/Heartbeat/Recorder.antt =====
-- scripts/runtime/heartbeat/state_recorder.py: the writes of the heartbeat.
pub mod Mirror
pub mod Drain
use Prim.Native.Nat.{Ordering}
use Prim.Native.String.{◌++◌ as text_append, compare as compare_text}
use gddp_runtime.Prelude.{
  ℕ, zero, suc, ◌+◌, ◌-◌, ◌≤◌, ◌<◌, String, Bool, true, false, ◌&&◌, ◌||◌, not, Option, none, some,
  List, [], ◌∷◌, ◌++◌, map, any, all, keep, All, nonempty, length, mem, if◌then◌else◌, ltb, leb,
  ◌==◌, str_eq, eq_iff, eq_refl, or_else, is_some, Result, ok, err, ◌>>=◌, ◌>>◌, guard, ◌≡◌, ◌≢◌,
  ◌↔◌, ◌⊎◌, inl, inr, refl, sym, ap, subst, ◌∙◌, arith, Bool-cases, Option-cases,
}
use gddp_runtime.Prelude.Decimal.{show}
use gddp_runtime.Heartbeat.Graph.{NodeRow, node_status}
use gddp_runtime.Heartbeat.Store.{
  Db, EventRow, JobRow, QueueRow, SessionRow, Stamp, at, Classification, ClassificationCell,
  classified, blocked_reason, update, set_if, count, find,
}

is_event : String → EventRow → Bool
is_event id e = str_eq e.event_id id

unfoldable pub mark_event_ignored : String → Db → Db
unfolding is_event
mark_event_ignored id db = record db {
  events = update (is_event id) (λ e. record e { status = "ignored" }) db.events;
}

unfoldable pub mark_event_classified : String → Classification → Db → Db
unfolding is_event
mark_event_classified id c db = record db {
  events =
      update (is_event id)
        (λ e. record e {
          status = "classified";
          classification = classified c;
          scope_status = "in_scope";
        })
        db.events;
}

unfoldable pub mark_event_scope_blocked : String → String → Db → Db
unfolding is_event
mark_event_scope_blocked id reason db = record db {
  events =
      update (is_event id)
        (λ e. record e {
          status = "scope_blocked";
          scope_status = "blocked";
          classification = blocked_reason reason;
        })
        db.events;
}

unfoldable pub mark_event_mapped : String → Db → Db
unfolding is_event
mark_event_mapped id db = record db {
  events = update (is_event id) (λ e. record e { status = "mapped" }) db.events;
}

unfoldable pub insert_job : JobRow → Db → Db
insert_job job db = record db { jobs = db.jobs ++ job ∷ [] }

unfoldable pub insert_queue_record : (ts : String) (now : ℕ) (job_id : String) → Db → Db
insert_queue_record ts now job_id db = record db {
  queue_records =
      db.queue_records
      ++ record {
        queue_item_id = text_append "qi_" ts;
        job_id = job_id;
        queue = "ready";
        available_at = now;
      }
        ∷ [];
}

-- The pair of updates that moves a set of jobs and their queue records to one state.
unfoldable pub set_job_state : (String → Bool) → String → Db → Db
unfolding set_if
set_job_state chosen state db = record db {
  jobs =
      update (λ j. chosen j.job_id) (λ j. record j { status = state; queue_state = state }) db.jobs;
  queue_records = update (λ q. chosen q.job_id) (λ q. record q { queue = state }) db.queue_records;
}

unfoldable pub mark_job_running : String → Db → Db
mark_job_running id db = set_job_state (λ j. str_eq j id) "running" db

unfoldable pub mark_job_failed : String → Db → Db
mark_job_failed id db = set_job_state (λ j. str_eq j id) "failed" db

unfoldable pub mark_job_cancelled : String → Db → Db
mark_job_cancelled id db = set_job_state (λ j. str_eq j id) "cancelled" db

unfoldable pub mark_jobs_awaiting_review : List String → Db → Db
mark_jobs_awaiting_review ids db = set_job_state (λ j. mem j ids) "awaiting_review" db

-- `TERMINAL_GRAPH_TO_JOB_STATUS.get(status or "")`
unfoldable pub terminal_job_status : Option String → Option String
terminal_job_status none = none
terminal_job_status (some s) =
    if str_eq s "complete"
    then some "accepted"
    else if str_eq s "deferred"
    then some "deferred"
    else none

-- One row of `reconcile_reviewed_jobs`: the job only while it still awaits review, its queue
-- records in any case.
unfoldable pub reconcile_job : String → String → Db → Db
reconcile_job id state db = record db {
  jobs =
      update (λ j. str_eq j.job_id id && str_eq j.status "awaiting_review")
        (λ j. record j { status = state; queue_state = state }) db.jobs;
  queue_records =
      update (λ q. str_eq q.job_id id) (λ q. record q { queue = state }) db.queue_records;
}

unfoldable pub reconcile_rows :
    (String → Option String) → List JobRow → Db → Db × List (String × String × String)
unfolding reconcile_job terminal_job_status
reconcile_rows status_by_id [] db = (db, [])
reconcile_rows status_by_id (j ∷ rows) db =
    let kept = reconcile_rows status_by_id rows db in
    elim (terminal_job_status (status_by_id j.node_id)) [
      | none ↦ kept
      | some state ↦
          let rest = reconcile_rows status_by_id rows (reconcile_job j.job_id state db) in
          (rest.0, (j.job_id, j.node_id, state) ∷ rest.1)
    ]

unfoldable pub reconcile_reviewed_jobs :
    String → List NodeRow → Db → Db × List (String × String × String)
unfolding reconcile_rows
reconcile_reviewed_jobs project nodes db =
    reconcile_rows (node_status nodes)
      (keep (λ j. str_eq j.project_id project && str_eq j.status "awaiting_review") db.jobs) db
