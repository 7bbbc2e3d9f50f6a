-- ===== src/Heartbeat/Sessions.antt =====
-- scripts/runtime/heartbeat/state_recorder.py: the executor sessions, one row for each attempt.
pub mod Attempts
pub mod Finalize
pub mod Budgets
use Prim.Native.Nat.{Ordering}
use Prim.Native.String.{◌++◌ as text_append, compare as compare_text}
use gddp_runtime.Prelude.{
  ℕ, zero, suc, ◌+◌, ◌-◌, ◌≤◌, ◌<◌, String, Bool, true, false, ◌&&◌, ◌||◌, not, Option, none, some,
  List, [], ◌∷◌, ◌++◌, map, any, all, keep, All, nonempty, length, mem, if◌then◌else◌, ltb, leb,
  ◌==◌, str_eq, eq_iff, eq_refl, or_else, is_some, Result, ok, err, ◌>>=◌, ◌>>◌, guard, ◌≡◌, ◌≢◌,
  ◌↔◌, ◌⊎◌, inl, inr, refl, sym, ap, subst, ◌∙◌, arith, Bool-cases, Option-cases,
}
use gddp_runtime.Prelude.Decimal.{show}
use gddp_runtime.Heartbeat.Store.{Db, JobRow, SessionRow, update, set_if, count, find}
use gddp_runtime.Heartbeat.Recorder.{mark_job_failed}

unfoldable pub execution_attempt_id : String → ℕ → String
execution_attempt_id job_id index = text_append job_id (text_append ":attempt:" (show index))

-- What a call reads of the clock and of the generator of identifiers.
pub record Tick : Type 0 where
  pub ts : String
  pub now : ℕ

unfoldable pub new_session :
    Tick
    → (job_id executor session_id : String) (expected_base : Option String) (attempt_index : ℕ)
      (state : String) (attempt_dir : Option String)
    → SessionRow
new_session t job_id executor session_id base index state dir = record {
  session_db_id = text_append "ses_" t.ts;
  job_id = job_id;
  executor = executor;
  session_id = session_id;
  execution_attempt_id = execution_attempt_id job_id index;
  attempt_index = index;
  state = state;
  expected_base_commit_sha = base;
  created_at = t.now;
  updated_at = t.now;
  error = none;
  result_commit_sha = none;
  patch_path = none;
  attempt_dir = dir;
  completion_id = none;
  completion_digest_sha256 = none;
  completion_quarantine_reason = none;
  evidence_manifest_path = none;
}

unfoldable pub insert_executor_session : SessionRow → Db → Db × String
insert_executor_session row db =
    (record db { sessions = db.sessions ++ row ∷ [] }, row.session_db_id)

-- A text that is not empty, as Python's `if recorded` asks.
unfoldable pub filled : Option String → Option String
filled none = none
filled (some t) = if str_eq t "" then none else some t

-- `ORDER BY attempt_index ASC, created_at ASC, session_db_id ASC`
text_before : String → String → Bool
text_before a b = elim (compare_text a b) [ Ordering.lt ↦ true | _ ↦ false ]

unfoldable pub session_before : SessionRow → SessionRow → Bool
unfolding text_before
session_before a b =
    ltb a.attempt_index b.attempt_index
    || (a.attempt_index == b.attempt_index
        && (ltb a.created_at b.created_at
            || (a.created_at == b.created_at && text_before a.session_db_id b.session_db_id)))

unfoldable pub earlier : Option SessionRow → SessionRow → SessionRow
unfolding session_before
earlier none b = b
earlier (some a) b = if session_before b a then b else a

unfoldable pub based : String → SessionRow → Bool
based job_id s = str_eq s.job_id job_id && is_some s.expected_base_commit_sha

unfoldable pub first_based : String → List SessionRow → Option SessionRow → Option SessionRow
unfolding based earlier
first_based job_id [] best = best
first_based job_id (s ∷ rest) best =
    first_based job_id rest (if based job_id s then some (earlier best s) else best)

unfoldable pub job_base : Option JobRow → Option String
job_base none = none
job_base (some j) = j.expected_base_commit_sha

unfoldable pub session_base : Option SessionRow → Option String
session_base none = none
session_base (some s) = s.expected_base_commit_sha

unfoldable pub recorded_base_commit_sha : Db → String → Option String
unfolding job_base session_base filled
recorded_base_commit_sha db job_id =
    or_else (filled (job_base (find (λ j. str_eq j.job_id job_id) db.jobs)))
      (filled (session_base (first_based job_id db.sessions none)))

unfoldable pub allocate_retry_attempt :
    Tick
    → JobRow
    → (executor : String) (expected_base previous_findings : Option String) → Db
    → Option (JobRow × String × Db)
unfolding filled
allocate_retry_attempt t job executor expected_base findings db =
    let current = job.attempt in
    let next = job.attempt + 1 in
    let at_attempt = λ (j : JobRow). str_eq j.job_id job.job_id && j.attempt == current in
    let moved : Db = record db {
      jobs =
          update at_attempt
            (λ j. record j {
              attempt = next;
              previous_findings = or_else findings j.previous_findings;
            })
            db.jobs;
    } in
    let base = or_else (filled expected_base) (recorded_base_commit_sha moved job.job_id) in
    let inserted =
      insert_executor_session
        (new_session t job.job_id executor (execution_attempt_id job.job_id next) base next
          "dispatching" none)
        moved in
    if leb job.max_attempts current
    then none
    else if count at_attempt db.jobs == 1
    then some (
      record job {
        attempt = next;
        expected_base_commit_sha = base;
        previous_findings = or_else findings job.previous_findings;
      },
      inserted.1,
      inserted.0,
    )
    else none

-- `DEFAULT_PLUMBING_RETRY_BUDGET`
abbrev pub plumbing_retry_budget : ℕ
plumbing_retry_budget = 3

unfoldable pub allocate_plumbing_retry :
    Tick
    → JobRow
    → (executor : String) (expected_base : Option String) → Db
    → Option (JobRow × String × Db)
unfolding filled
allocate_plumbing_retry t job executor expected_base db =
    let current = job.plumbing_attempt in
    let next = job.plumbing_attempt + 1 in
    let at_attempt = λ (j : JobRow). str_eq j.job_id job.job_id && j.plumbing_attempt == current in
    let moved : Db = record db {
      jobs = update at_attempt (λ j. record j { plumbing_attempt = next }) db.jobs;
    } in
    let base = or_else (filled expected_base) (recorded_base_commit_sha moved job.job_id) in
    let attempt_id = execution_attempt_id job.job_id job.attempt in
    let inserted =
      insert_executor_session
        (new_session t job.job_id executor
          (text_append attempt_id (text_append ":plumbing:" (show next))) base job.attempt
          "dispatching" none)
        moved in
    if leb plumbing_retry_budget current
    then none
    else if count at_attempt db.jobs == 1
    then some (
      record job { plumbing_attempt = next; expected_base_commit_sha = base },
      inserted.1,
      inserted.0,
    )
    else none

-- The optional columns that a finalisation sets.
pub record Finalization : Type 0 where
  pub state : String
  pub executor : Option String
  pub session_id : Option String
  pub expected_base_commit_sha : Option String
  pub error : Option String
  pub attempt_dir : Option String

-- `COALESCE(?, column)` of a column that is never null
or_keep : Option String → String → String
or_keep none old = old
or_keep (some new) old = new

unfoldable pub is_dispatching : String → SessionRow → Bool
is_dispatching id s = str_eq s.session_db_id id && str_eq s.state "dispatching"

-- The `SET` of a finalisation.
unfoldable pub finalized : ℕ → Finalization → SessionRow → SessionRow
unfolding or_keep
finalized now f s = record s {
  state = f.state;
  executor = or_keep f.executor s.executor;
  session_id = or_keep f.session_id s.session_id;
  expected_base_commit_sha = or_else f.expected_base_commit_sha s.expected_base_commit_sha;
  error = or_else f.error s.error;
  attempt_dir = or_else f.attempt_dir s.attempt_dir;
  updated_at = now;
}

unfoldable pub finalize_executor_session_dispatch : ℕ → String → Finalization → Db → Db × Bool
unfolding finalized is_dispatching
finalize_executor_session_dispatch now id f db = (
  record db { sessions = update (is_dispatching id) (finalized now f) db.sessions },
  count (is_dispatching id) db.sessions == 1,
)

unfoldable pub update_executor_session_state :
    (now : ℕ) (id state : String) (error result_commit_sha patch_path : Option String) → Db → Db
update_executor_session_state now id state error result patch db = record db {
  sessions =
      update (λ s. str_eq s.session_db_id id)
        (λ s. record s {
          state = state;
          error = or_else error s.error;
          result_commit_sha = or_else result s.result_commit_sha;
          patch_path = or_else patch s.patch_path;
          updated_at = now;
        })
        db.sessions;
}
