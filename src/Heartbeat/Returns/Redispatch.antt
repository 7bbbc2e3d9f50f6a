-- ===== src/Heartbeat/Returns/Redispatch.antt =====
-- A redispatch takes the job to its next attempt, or puts it to await review.
use gddp_runtime.Prelude.{
  ◌≤◌, String, ◌&&◌, Option, none, some, leb, ◌==◌, str_eq, or_else, ◌≡◌, ◌≢◌, ◌⊎◌, inl, inr, refl,
  ◌∙◌, arith, Bool-cases,
}
use gddp_runtime.Heartbeat.Store.{Db, JobRow, find, count}
use gddp_runtime.Heartbeat.Sessions.{filled, recorded_base_commit_sha, allocate_retry_attempt}
use gddp_runtime.Heartbeat.Sessions.Attempts.{allocate_retry_attempt_lem, retried_on_base}
use gddp_runtime.Heartbeat.Returns.{
  PreviousFindings, Return, not_attempted, ReturnHost, mark_job_awaiting_review,
  redispatch_allocated, redispatch_with_findings,
}
use gddp_runtime.Heartbeat.Returns.Settling.{IsRedispatched, settle_dispatch-IsRedispatched}

module _ (host : ReturnHost) (Ready : JobRow → Type 0) (db : Db) (job : JobRow)
    (found : find (λ j. str_eq j.job_id job.job_id) db.jobs ≡ some job) (ready : Ready job) where
  exhausted :
      (base : Option String) (encoded : Option String)
      → allocate_retry_attempt host.tick job job.executor base encoded db ≡ none
      → (job.max_attempts ≤ job.attempt)
        ⊎ (count (λ j. str_eq j.job_id job.job_id && j.attempt == job.attempt) db.jobs ≢ 1)
  unfolding allocate_retry_attempt
  exhausted base encoded a = elim (Bool-cases (leb job.max_attempts job.attempt)) [
    | inl e ↦ inl (ground (arith, e))
    | inr e ↦ inr (λ q. ground (arith, e, q, a))
  ]

  redispatch_allocated-IsRedispatched :
      (base : Option String) (findings : PreviousFindings)
      → host.preflight_error job.executor job.repo ≡ none
      → or_else (filled base) (recorded_base_commit_sha db job.job_id)
        ≡ recorded_base_commit_sha db job.job_id
      → (o : Option (JobRow × String × Db))
      → allocate_retry_attempt host.tick job job.executor base (some (host.encode findings)) db ≡ o
      → IsRedispatched host Ready job.job_id db (redispatch_allocated host job.job_id db o)
  unfolding redispatch_allocated
  redispatch_allocated-IsRedispatched base findings clear same none a =
      unfold IsRedispatched in
      (refl, (job, found, ready, clear, exhausted base (some (host.encode findings)) a))
  redispatch_allocated-IsRedispatched base findings clear same (some (job', session, reserved)) a =
      let encoded = some (host.encode findings) in
      let bounds =
        allocate_retry_attempt_lem host.tick job job.executor base encoded db reserved job' session
          a in
      settle_dispatch-IsRedispatched host Ready job.job_id db session
        (record {
          job = job;
          retried = job';
          base = base;
          findings = findings;
          reserved = reserved;
          found = found;
          ready = ready;
          allocated = a;
          cleared = clear;
          on_base =
              retried_on_base host.tick job job.executor base encoded db reserved job' session a
              ∙ same;
          next = bounds.0;
          within = bounds.1;
        })
        (host.dispatch job') refl

  pub redispatch_with_findings-IsRedispatched :
      (base : Option String) (findings : PreviousFindings)
      → or_else (filled base) (recorded_base_commit_sha db job.job_id)
        ≡ recorded_base_commit_sha db job.job_id
      → IsRedispatched host Ready job.job_id db (redispatch_with_findings host job base findings db)
  unfolding redispatch_with_findings
  redispatch_with_findings-IsRedispatched base findings same =
      checked (host.preflight_error job.executor job.repo) refl
    where
      checked :
          (o : Option String)
          → host.preflight_error job.executor job.repo ≡ o
          → IsRedispatched host Ready job.job_id db (elim o as (λ _. Db × Return) [
            | some error ↦ (mark_job_awaiting_review job.job_id db, not_attempted (some error))
            | none ↦ redispatch_allocated host job.job_id db (
                allocate_retry_attempt host.tick job job.executor base
                  (some (host.encode findings))
                  db)
          ])
      checked none e = redispatch_allocated-IsRedispatched base findings e same _ refl
      checked (some error) e = unfold IsRedispatched in (refl, (job, found, ready, e))
