-- ===== src/Heartbeat/Sessions/Attempts.antt =====
-- The retry budgets, and the base that a retry builds on.
use gddp_runtime.Prelude.{
  or_else, ℕ, ◌+◌, ◌≤◌, String, Bool, true, false, ◌&&◌, Option, none, some, List, [], ◌∷◌, ◌++◌,
  All, if◌then◌else◌, ◌==◌, str_eq, eq_iff, ◌≡◌, ◌⊎◌, inl, inr, refl, arith, Bool-cases,
}
use gddp_runtime.Heartbeat.Sessions.{
  filled, session_before, recorded_base_commit_sha, session_base, Tick, allocate_retry_attempt,
  insert_executor_session, new_session, execution_attempt_id, first_based, earlier, based, job_base,
}
use gddp_runtime.Heartbeat.Store.{Db, JobRow, SessionRow, update, set_if, count, find}

module _ (t : Tick) (job : JobRow) (executor : String) (base findings : Option String) (db db' : Db)
    (job' : JobRow) (id : String)
    (allocated : allocate_retry_attempt t job executor base findings db
      ≡ some (job', id, db')) where
  pub allocate_retry_attempt_lem :
      (job'.attempt ≡ job.attempt + 1)
      × (job'.attempt ≤ job.max_attempts)
      × (count (λ j. str_eq j.job_id job.job_id && j.attempt == job.attempt) db.jobs ≡ 1)
      × (db'.sessions
          ≡ db.sessions
            ++ new_session t job.job_id executor
                (execution_attempt_id job.job_id job'.attempt)
                job'.expected_base_commit_sha
                job'.attempt
                "dispatching"
                none
              ∷ [])
  unfolding allocate_retry_attempt insert_executor_session
  allocate_retry_attempt_lem = (ground arith, ground arith, ground arith, ground arith)

-- An update of the other columns leaves a job's base.
find-update_base :
    (id : String) (p : JobRow → Bool) (f : JobRow → JobRow)
    → ((j : JobRow) → (f j).job_id ≡ j.job_id)
    → ((j : JobRow) → (f j).expected_base_commit_sha ≡ j.expected_base_commit_sha)
    → (jobs : List JobRow)
    → job_base (find (λ j. str_eq j.job_id id) (update p f jobs))
      ≡ job_base (find (λ j. str_eq j.job_id id) jobs)
unfolding find job_base set_if
find-update_base id p f hid hb [] = refl
find-update_base id p f hid hb (j ∷ jobs) =
    ground (arith, hid j, hb j, find-update_base id p f hid hb jobs)

first_based-snoc :
    (id : String) (xs : List SessionRow) (s : SessionRow) (best : Option SessionRow)
    → first_based id (xs ++ s ∷ []) best
      ≡ (if based id s then some (earlier (first_based id xs best) s) else first_based id xs best)
unfolding first_based
first_based-snoc id [] s best = refl
first_based-snoc id (x ∷ xs) s best = first_based-snoc id xs s _

module _ (bound : ℕ) where
  abbrev Within : Option SessionRow → Type 0
  Within none = Unit
  Within (some s) = s.attempt_index ≤ bound

  earlier-Within :
      (a : Option SessionRow) (s : SessionRow)
      → Within a
      → s.attempt_index ≤ bound
      → (earlier a s).attempt_index ≤ bound
  unfolding earlier
  earlier-Within none s ha hs = hs
  earlier-Within (some a) s ha hs = ground arith

  first_based-Within :
      (id : String) (xs : List SessionRow) (best : Option SessionRow)
      → All (λ s. s.job_id ≡ id → s.attempt_index ≤ bound) xs
      → Within best
      → Within (first_based id xs best)
  unfolding first_based based
  first_based-Within id [] best h hb = hb
  first_based-Within id (x ∷ xs) best h hb =
      first_based-Within id xs _ h.1 (next (Bool-cases (based id x)))
    where
      next :
          (based id x ≡ true) ⊎ (based id x ≡ false)
          → Within (if based id x then some (earlier best x) else best)
      next (inl e) = rw e (earlier-Within best x hb (h.0 (ground (arith, eq_iff x.job_id id))))
      next (inr e) = rw e hb

later_keeps :
    (bound : ℕ) (id b : String) (best : Option SessionRow) (s : SessionRow)
    → Within bound best
    → s.attempt_index ≡ bound + 1
    → filled (session_base best) ≡ some b
    → filled (session_base (if based id s then some (earlier best s) else best)) ≡ some b
unfolding session_base earlier session_before filled
later_keeps bound id b none s w e h = absurd (cc)
later_keeps bound id b (some a) s w e h = elim (Bool-cases (based id s)) [
  | inl c ↦ rw (c, older) h
  | inr c ↦ rw c h
]
  where
    older : earlier (some a) s ≡ a
    older = ground arith

or_else_keeps :
    (x y y' : Option String) (b : String)
    → (y ≡ some b → y' ≡ some b)
    → or_else x y ≡ some b
    → or_else x y' ≡ some b
or_else_keeps none y y' b f h = f h
or_else_keeps (some x) y y' b f h = h

module _ (t : Tick) (job : JobRow) (executor : String) (base findings : Option String) (db db' : Db)
    (job' : JobRow) (id : String)
    (allocated : allocate_retry_attempt t job executor base findings db
      ≡ some (job', id, db')) where
  abbrev at_attempt : JobRow → Bool
  at_attempt j = str_eq j.job_id job.job_id && j.attempt == job.attempt

  abbrev bump : JobRow → JobRow
  bump j = record j {
    attempt = job.attempt + 1;
    previous_findings = or_else findings j.previous_findings;
  }

  retried_jobs : db'.jobs ≡ update at_attempt bump db.jobs
  unfolding allocate_retry_attempt insert_executor_session
  retried_jobs = ground arith

  retried_base :
      job'.expected_base_commit_sha
      ≡ or_else (filled base) (
          recorded_base_commit_sha (record db { jobs = update at_attempt bump db.jobs }) job.job_id)
  unfolding allocate_retry_attempt
  retried_base = ground arith

  same_job_base :
      job_base (find (λ j. str_eq j.job_id job.job_id) (update at_attempt bump db.jobs))
      ≡ job_base (find (λ j. str_eq j.job_id job.job_id) db.jobs)
  same_job_base = find-update_base job.job_id at_attempt bump (λ j. refl) (λ j. refl) db.jobs

  pub retried_on_base :
      job'.expected_base_commit_sha ≡ or_else (filled base) (recorded_base_commit_sha db job.job_id)
  unfolding recorded_base_commit_sha
  retried_on_base = rw (retried_base, same_job_base) refl

  -- A retry builds on the base of attempt 0: where a base is recorded for the job, and its sessions
  -- so far belong to attempts up to the current one, the retry is returned with that base unless
  -- the caller names one that is not empty, and the same base stays recorded after it in either
  -- case.
  pub allocate_retry_attempt-base :
      (b : String)
      → All (λ s. s.job_id ≡ job.job_id → s.attempt_index ≤ job.attempt) db.sessions
      → recorded_base_commit_sha db job.job_id ≡ some b
      → (recorded_base_commit_sha db' job.job_id ≡ some b)
        × (job'.expected_base_commit_sha ≡ or_else (filled base) (some b))
  unfolding recorded_base_commit_sha
  allocate_retry_attempt-base b w h = (
    rw (retried_jobs, same_job_base, parts.3, first_based-snoc)
        (or_else_keeps _ _ _ b (later_keeps job.attempt job.job_id b _ _ (within) index) h),
    rw (retried_base, same_job_base, h) refl,
  )
    where
      parts :
          (job'.attempt ≡ job.attempt + 1)
          × (job'.attempt ≤ job.max_attempts)
          × (count at_attempt db.jobs ≡ 1)
          × (db'.sessions
              ≡ db.sessions
                ++ new_session t job.job_id executor
                    (execution_attempt_id job.job_id job'.attempt)
                    job'.expected_base_commit_sha
                    job'.attempt
                    "dispatching"
                    none
                  ∷ [])
      parts = allocate_retry_attempt_lem t job executor base findings db db' job' id allocated

      within : Within job.attempt (first_based job.job_id db.sessions none)
      within = first_based-Within job.attempt job.job_id db.sessions none w tt

      index :
          (new_session t job.job_id executor
            (execution_attempt_id job.job_id job'.attempt)
            job'.expected_base_commit_sha
            job'.attempt
            "dispatching"
            none).attempt_index
          ≡ job.attempt + 1
      index = unfold new_session in parts.0
