-- ===== src/Heartbeat/Recorder/Mirror.antt =====
-- The queue mirrors the jobs table under every transition of a job.
use gddp_runtime.Prelude.{
  String, Bool, false, List, map, All, ◌≡◌, inl, inr, arith, Bool-cases, All-map, All-imp, str_eq,
  eq_iff, ◌⊎◌, ap,
}
use gddp_runtime.Heartbeat.Store.{Db, JobRow, QueueRow, set_if}
use gddp_runtime.Heartbeat.Recorder.{
  set_job_state, mark_job_running, mark_job_failed, mark_job_cancelled, mark_jobs_awaiting_review,
}

-- The queue record of a job shows the job's status.
abbrev Follows : JobRow → QueueRow → Type 0
Follows j q = (str_eq q.job_id j.job_id ≡ false) ⊎ (q.queue ≡ j.status)

abbrev JobMirrored : List QueueRow → JobRow → Type 0
JobMirrored qs j = (j.status ≡ j.queue_state) × All (Follows j) qs

-- Every job's two state columns agree, and so do its queue records.
pub record IsMirrored (db : Db) : Type 0 where
  pub mirrored : All (JobMirrored db.queue_records) db.jobs

abbrev moved_job : String → JobRow → JobRow
moved_job state j = record j { status = state; queue_state = state }

abbrev moved_queue : String → QueueRow → QueueRow
moved_queue state q = record q { queue = state }

module _ (chosen : String → Bool) (state : String) where
  abbrev job' : JobRow → JobRow
  job' = set_if (λ j. chosen j.job_id) (moved_job state)

  abbrev queue' : QueueRow → QueueRow
  queue' = set_if (λ q. chosen q.job_id) (moved_queue state)

  Follows-moved : (j : JobRow) (q : QueueRow) → Follows j q → Follows (job' j) (queue' q)
  unfolding set_if
  Follows-moved j q h = elim (Bool-cases (str_eq q.job_id j.job_id)) [
    | inl e ↦
        let same = ap chosen ((eq_iff q.job_id j.job_id).0 e) in
        let follows : q.queue ≡ j.status = ground arith in inr (ground (arith, same))
    | inr e ↦ inl (ground arith)
  ]

  agree-moved : (j : JobRow) → j.status ≡ j.queue_state → (job' j).status ≡ (job' j).queue_state
  unfolding set_if
  agree-moved j h = ground arith

  set_job_state-IsMirrored : (db : Db) → IsMirrored db → IsMirrored (set_job_state chosen state db)
  unfolding set_job_state
  set_job_state-IsMirrored db h = record {
    mirrored = All-map (JobMirrored (map queue' db.queue_records)) job' db.jobs (
        All-imp (JobMirrored db.queue_records) _
          (λ j m. (
            agree-moved j m.0,
            All-map (Follows (job' j)) queue' db.queue_records
                (All-imp (Follows j) _ (Follows-moved j) db.queue_records m.1),
          ))
          db.jobs h.mirrored);
  }

-- Whichever of the four transitions moves them, and whatever the jobs, the queue goes on mirroring
-- the jobs table.
pub transitions-IsMirrored :
    (db : Db) (id : String) (ids : List String)
    → IsMirrored db
    → IsMirrored (mark_job_running id db)
      × IsMirrored (mark_job_failed id db)
      × IsMirrored (mark_job_cancelled id db)
      × IsMirrored (mark_jobs_awaiting_review ids db)
unfolding mark_job_running mark_job_failed mark_job_cancelled mark_jobs_awaiting_review
transitions-IsMirrored db id ids h = (
  set_job_state-IsMirrored _ "running" db h,
  set_job_state-IsMirrored _ "failed" db h,
  set_job_state-IsMirrored _ "cancelled" db h,
  set_job_state-IsMirrored _ "awaiting_review" db h,
)
