-- ===== src/Heartbeat/Sessions/Budgets.antt =====
-- What a retry spends: the rows that it moves, and that one reading pays for one retry.
use gddp_runtime.Prelude.{
  ℕ, ◌+◌, ◌≤◌, String, Bool, true, false, ◌&&◌, Option, none, some, List, [], ◌∷◌, ◌++◌, map, any,
  if◌then◌else◌, ◌==◌, str_eq, or_else, ◌≡◌, refl, arith,
}
use gddp_runtime.Heartbeat.Store.{Db, JobRow, update, set_if, count}
use gddp_runtime.Heartbeat.Store.Rows.{keep_none}
use gddp_runtime.Heartbeat.Sessions.{
  Tick, allocate_retry_attempt, allocate_plumbing_retry, insert_executor_session, new_session,
  execution_attempt_id,
}
use gddp_runtime.Heartbeat.Sessions.Attempts.{allocate_retry_attempt_lem}

-- The rows of a job at an attempt.
abbrev pub at_attempt : String → ℕ → JobRow → Bool
at_attempt id n j = str_eq j.job_id id && j.attempt == n

abbrev pub at_plumbing : String → ℕ → JobRow → Bool
at_plumbing id n j = str_eq j.job_id id && j.plumbing_attempt == n

module _ (id : String) (n : ℕ) (f : JobRow → JobRow)
    (same : (j : JobRow) → (f j).job_id ≡ j.job_id) where
  module _ (next : (j : JobRow) → (f j).attempt ≡ n + 1) where
    attempt_left :
        (jobs : List JobRow) → any (at_attempt id n) (update (at_attempt id n) f jobs) ≡ false
    unfolding set_if
    attempt_left [] = refl
    attempt_left (j ∷ jobs) = ground (arith, next j, attempt_left jobs)

    attempt_moved :
        (jobs : List JobRow)
        → count (at_attempt id (n + 1)) (update (at_attempt id n) f jobs)
          ≡ count (at_attempt id (n + 1)) jobs + count (at_attempt id n) jobs
    unfolding set_if
    attempt_moved [] = refl
    attempt_moved (j ∷ jobs) = ground (arith, same j, next j, attempt_moved jobs)

  module _ (next : (j : JobRow) → (f j).plumbing_attempt ≡ n + 1) where
    plumbing_left :
        (jobs : List JobRow) → any (at_plumbing id n) (update (at_plumbing id n) f jobs) ≡ false
    unfolding set_if
    plumbing_left [] = refl
    plumbing_left (j ∷ jobs) = ground (arith, next j, plumbing_left jobs)

    plumbing_moved :
        (jobs : List JobRow)
        → count (at_plumbing id (n + 1)) (update (at_plumbing id n) f jobs)
          ≡ count (at_plumbing id (n + 1)) jobs + count (at_plumbing id n) jobs
    unfolding set_if
    plumbing_moved [] = refl
    plumbing_moved (j ∷ jobs) = ground (arith, same j, next j, plumbing_moved jobs)

-- A column that an update does not set.
column_kept :
    {A : Type 0} (column : JobRow → A) (p : JobRow → Bool) (f : JobRow → JobRow)
    → ((j : JobRow) → column (f j) ≡ column j)
    → (jobs : List JobRow) → map column (update p f jobs) ≡ map column jobs
unfolding set_if
column_kept column p f h [] = refl
column_kept column p f h (j ∷ jobs) = rw (first (p j), column_kept column p f h jobs) refl
  where
    first : (b : Bool) → column (if b then f j else j) ≡ column j
    first true = h j
    first false = refl

module _ (t later : Tick) (job : JobRow) (executor executor' : String)
    (base base' findings findings' : Option String) (db db' : Db) (job' : JobRow)
    (id : String) where
  abbrev retry : JobRow → JobRow
  retry j = record j {
    attempt = job.attempt + 1;
    previous_findings = or_else findings j.previous_findings;
  }

  abbrev replumb : JobRow → JobRow
  replumb j = record j { plumbing_attempt = job.plumbing_attempt + 1 }

  retry_refused :
      (d : Db)
      → any (at_attempt job.job_id job.attempt) d.jobs ≡ false
      → allocate_retry_attempt later job executor' base' findings' d ≡ none
  unfolding allocate_retry_attempt
  retry_refused d h =
      let empty = keep_none (at_attempt job.job_id job.attempt) d.jobs h in ground (arith, empty)

  replumb_refused :
      (d : Db)
      → any (at_plumbing job.job_id job.plumbing_attempt) d.jobs ≡ false
      → allocate_plumbing_retry later job executor' base' d ≡ none
  unfolding allocate_plumbing_retry
  replumb_refused d h =
      let empty = keep_none (at_plumbing job.job_id job.plumbing_attempt) d.jobs h in
      ground (arith, empty)

  -- A retry takes the job to its next attempt, within its maximum: one more row of the job stands at
  -- that attempt, and no row's plumbing attempt changes. One session is added, for that attempt, in
  -- state "dispatching", on the base that the job is returned with. One reading of the job pays for
  -- one retry: any later call with it, whatever else it names, is refused.
  pub allocate_retry_attempt-bounded :
      allocate_retry_attempt t job executor base findings db ≡ some (job', id, db')
      → (job'.attempt ≡ job.attempt + 1)
        × (job'.attempt ≤ job.max_attempts)
        × (count (at_attempt job.job_id (job.attempt + 1)) db'.jobs
            ≡ count (at_attempt job.job_id (job.attempt + 1)) db.jobs + 1)
        × (map (λ (j : JobRow). j.plumbing_attempt) db'.jobs
            ≡ map (λ (j : JobRow). j.plumbing_attempt) db.jobs)
        × (db'.sessions
            ≡ db.sessions
              ++ new_session t job.job_id executor
                  (execution_attempt_id job.job_id job'.attempt)
                  job'.expected_base_commit_sha
                  job'.attempt
                  "dispatching"
                  none
                ∷ [])
        × (allocate_retry_attempt later job executor' base' findings' db' ≡ none)
  allocate_retry_attempt-bounded h =
      let parts = allocate_retry_attempt_lem t job executor base findings db db' job' id h in
      (
        parts.0,
        parts.1,
        rw
            (
              moved h,
              attempt_moved job.job_id job.attempt retry (λ j. refl) (λ j. refl) db.jobs,
              parts.2,
            )
            refl,
        rw (moved h) (column_kept (λ j. j.plumbing_attempt) _ retry (λ j. refl) db.jobs),
        parts.3,
        retry_refused db' (
            rw (moved h)
              (attempt_left job.job_id job.attempt retry (λ j. refl) (λ j. refl) db.jobs)),
      )
    where
      moved :
          allocate_retry_attempt t job executor base findings db ≡ some (job', id, db')
          → db'.jobs ≡ update (at_attempt job.job_id job.attempt) retry db.jobs
      moved h = unfold allocate_retry_attempt insert_executor_session in ground (arith, h)

  -- A plumbing retry takes one more row of the job to the next plumbing attempt, of three at most,
  -- and changes no row's work attempt. One reading of the job pays for one of them: any later call
  -- with it, whatever else it names, is refused.
  pub allocate_plumbing_retry-bounded :
      allocate_plumbing_retry t job executor base db ≡ some (job', id, db')
      → (job'.attempt ≡ job.attempt)
        × (job'.plumbing_attempt ≡ job.plumbing_attempt + 1)
        × (job'.plumbing_attempt ≤ 3)
        × (count (at_plumbing job.job_id (job.plumbing_attempt + 1)) db'.jobs
            ≡ count (at_plumbing job.job_id (job.plumbing_attempt + 1)) db.jobs + 1)
        × (map (λ (j : JobRow). j.attempt) db'.jobs ≡ map (λ (j : JobRow). j.attempt) db.jobs)
        × (allocate_plumbing_retry later job executor' base' db' ≡ none)
  allocate_plumbing_retry-bounded h =
      let parts = parts_of h in
      (
        parts.0,
        parts.1,
        parts.2,
        rw
            (
              parts.4,
              plumbing_moved job.job_id job.plumbing_attempt replumb (λ j. refl) (λ j. refl)
                  db.jobs,
              parts.3,
            )
            refl,
        rw parts.4 (column_kept (λ j. j.attempt) _ replumb (λ j. refl) db.jobs),
        replumb_refused db' (
            rw parts.4 (
              plumbing_left job.job_id job.plumbing_attempt replumb (λ j. refl) (λ j. refl)
                db.jobs)),
      )
    where
      parts_of :
          allocate_plumbing_retry t job executor base db ≡ some (job', id, db')
          → (job'.attempt ≡ job.attempt)
            × (job'.plumbing_attempt ≡ job.plumbing_attempt + 1)
            × (job'.plumbing_attempt ≤ 3)
            × (count (at_plumbing job.job_id job.plumbing_attempt) db.jobs ≡ 1)
            × (db'.jobs ≡ update (at_plumbing job.job_id job.plumbing_attempt) replumb db.jobs)
      parts_of h =
          unfold allocate_plumbing_retry insert_executor_session in
          (
            ground (arith, h),
            ground (arith, h),
            ground (arith, h),
            ground (arith, h),
            ground (arith, h),
          )
