-- ===== src/Heartbeat/Returns/Settling.antt =====
-- What a rejected result leads to, and how its dispatch is settled.
use Prim.Native.String.{◌++◌ as text_append}
use gddp_runtime.Prelude.{
  ℕ, ◌+◌, ◌≤◌, String, Bool, true, false, ◌&&◌, Option, none, some, List, [], ◌∷◌, any, All,
  if◌then◌else◌, ◌==◌, str_eq, Result, ok, err, ◌≡◌, ◌≢◌, ◌⊎◌, refl, ap, ◌∙◌, arith,
}
use gddp_runtime.Heartbeat.Store.{Db, JobRow, find, update, set_if, count}
use gddp_runtime.Heartbeat.Recorder.{set_job_state, mark_job_running}
use gddp_runtime.Heartbeat.Sessions.{
  Finalization, filled, finalized, is_dispatching, recorded_base_commit_sha, allocate_retry_attempt,
  finalize_executor_session_dispatch,
}
use gddp_runtime.Heartbeat.Sessions.Finalize.{none_left}
use gddp_runtime.Heartbeat.Recording.{DispatchResult, SessionRef}
use gddp_runtime.Heartbeat.Returns.{
  PreviousFindings, Return, retry_rejected, not_attempted, attempt_failed, dispatch_superseded,
  redispatched, raised, ReturnHost, mark_job_awaiting_review, failed_as, succeeded_as,
  after_failure, after_success, settle_dispatch,
}

-- The job that was retried, and what was reserved for it.
pub record SameBase (host : ReturnHost) (Ready : JobRow → Type 0) (id : String) (db : Db)
    (session : String) : Type 0 where
  pub job : JobRow
  pub retried : JobRow
  pub base : Option String
  pub findings : PreviousFindings
  pub reserved : Db
  pub found : find (λ j. str_eq j.job_id id) db.jobs ≡ some job
  pub ready : Ready job
  pub allocated :
      allocate_retry_attempt host.tick job job.executor base (some (host.encode findings)) db
      ≡ some (retried, session, reserved)
  pub cleared : host.preflight_error job.executor job.repo ≡ none
  pub on_base : retried.expected_base_commit_sha ≡ recorded_base_commit_sha db id
  pub next : retried.attempt ≡ job.attempt + 1
  pub within : retried.attempt ≤ job.max_attempts

abbrev pub Idle : String → Db → Type 0
Idle session db = any (is_dispatching session) db.sessions ≡ false

abbrev pub AllIn : String → String → Db → Type 0
AllIn id status db = All (λ j. str_eq j.job_id id ≡ true → j.status ≡ status) db.jobs

-- The adapter took the dispatch.
abbrev pub succeeded : Result String DispatchResult → Bool
succeeded (ok r) = r.success
succeeded (err message) = false

-- How many sessions of the identifier still dispatch, once the other processes have written.
abbrev pub standing : (host : ReturnHost) → (session : String) → Db → ℕ
standing host session reserved = count (is_dispatching session) (host.meanwhile reserved).sessions

-- What a redispatch leads to, for each status that is returned.
unfoldable pub IsRedispatched : ReturnHost → (JobRow → Type 0) → String → Db → Db × Return → Type 0
IsRedispatched host Ready id db (db', retry_rejected reason) = ⊥
IsRedispatched host Ready id db (db', raised) = ⊥
IsRedispatched host Ready id db (db', not_attempted (some error)) =
    (db' ≡ mark_job_awaiting_review id db)
    × ((job : JobRow) × (find (λ j. str_eq j.job_id id) db.jobs ≡ some job)
        × Ready job
        × (host.preflight_error job.executor job.repo ≡ some error))
IsRedispatched host Ready id db (db', not_attempted none) =
    (db' ≡ mark_job_awaiting_review id db)
    × ((job : JobRow) × (find (λ j. str_eq j.job_id id) db.jobs ≡ some job)
        × Ready job
        × (host.preflight_error job.executor job.repo ≡ none)
        × ((job.max_attempts ≤ job.attempt)
            ⊎ (count (λ j. str_eq j.job_id id && j.attempt == job.attempt) db.jobs ≢ 1)))
IsRedispatched host Ready id db (db', attempt_failed session error) =
    (same : SameBase host Ready id db session) × (standing host session same.reserved ≡ 1)
    × (succeeded (host.dispatch same.retried) ≡ false)
    × Idle session db'
    × AllIn id "awaiting_review" db'
IsRedispatched host Ready id db (db', dispatch_superseded session) =
    (same : SameBase host Ready id db session) × (standing host session same.reserved ≢ 1)
    × Idle session db'
    × (db'.jobs ≡ (host.meanwhile same.reserved).jobs)
IsRedispatched host Ready id db (db', redispatched session url) =
    (same : SameBase host Ready id db session) × (standing host session same.reserved ≡ 1)
    × (succeeded (host.dispatch same.retried) ≡ true)
    × Idle session db'
    × AllIn id "running" db'

set_job_state-AllIn :
    (id state : String) (rows : List JobRow)
    → All
        (λ j. str_eq j.job_id id ≡ true → j.status ≡ state)
        (update
          (λ j. str_eq j.job_id id)
          (λ j. record j { status = state; queue_state = state })
          rows)
unfolding set_if
set_job_state-AllIn id state [] = tt
set_job_state-AllIn id state (j ∷ rows) =
    (picked (str_eq j.job_id id) refl, set_job_state-AllIn id state rows)
  where
    after : Bool → JobRow
    after b = if b then record j { status = state; queue_state = state } else j

    picked :
        (b : Bool)
        → str_eq j.job_id id ≡ b
        → str_eq (after b).job_id id ≡ true
        → (after b).status ≡ state
    picked true e h = refl
    picked false e h = absurd (cc)

module _ (host : ReturnHost) (Ready : JobRow → Type 0) (id : String) (db : Db) where
  either :
      (b : Bool) (x y : Db × Return)
      → (b ≡ true → IsRedispatched host Ready id db x)
      → (b ≡ false → IsRedispatched host Ready id db y)
      → IsRedispatched host Ready id db (if b then x else y)
  either true x y p q = p refl
  either false x y p q = q refl

  module _ (session : String) (same : SameBase host Ready id db session) where
    abbrev arrived : Db
    arrived = host.meanwhile same.reserved

    after_failure-IsRedispatched :
        (error : String) (f : Finalization)
        → str_eq f.state "dispatching" ≡ false
        → succeeded (host.dispatch same.retried) ≡ false
        → IsRedispatched host Ready id db (
            after_failure host id session error
              (finalize_executor_session_dispatch host.finalized_at session f arrived))
    unfolding finalize_executor_session_dispatch
    after_failure-IsRedispatched error f m a = go (standing host session same.reserved == 1) refl
      where
        left : Db
        left = record arrived {
          sessions =
              update (is_dispatching session) (finalized host.finalized_at f) arrived.sessions;
        }

        idle : Idle session left
        idle = none_left host.finalized_at session f m arrived.sessions

        go :
            (b : Bool)
            → (standing host session same.reserved == 1) ≡ b
            → IsRedispatched host Ready id db (after_failure host id session error (left, b))
        go false e =
            unfold IsRedispatched after_failure in
            (same, λ q. absurd (cc (e, ap (λ k. k == 1) q)), idle, refl)
        go true e =
            unfold IsRedispatched after_failure mark_job_awaiting_review set_job_state in
            (same, ground (arith, e), a, idle, set_job_state-AllIn id _ arrived.jobs)

    after_success-IsRedispatched :
        (url : Option String) (f : Finalization)
        → str_eq f.state "dispatching" ≡ false
        → succeeded (host.dispatch same.retried) ≡ true
        → IsRedispatched host Ready id db (
            after_success host id session url
              (finalize_executor_session_dispatch host.finalized_at session f arrived))
    unfolding finalize_executor_session_dispatch
    after_success-IsRedispatched url f m a = go (standing host session same.reserved == 1) refl
      where
        left : Db
        left = record arrived {
          sessions =
              update (is_dispatching session) (finalized host.finalized_at f) arrived.sessions;
        }

        idle : Idle session left
        idle = none_left host.finalized_at session f m arrived.sessions

        go :
            (b : Bool)
            → (standing host session same.reserved == 1) ≡ b
            → IsRedispatched host Ready id db (after_success host id session url (left, b))
        go false e =
            unfold IsRedispatched after_success in
            (same, λ q. absurd (cc (e, ap (λ k. k == 1) q)), idle, refl)
        go true e =
            unfold IsRedispatched after_success mark_job_running set_job_state in
            (same, ground (arith, e), a, idle, set_job_state-AllIn id _ arrived.jobs)

    succeeded_moves :
        (ref : Option SessionRef) (url : Option String)
        → str_eq (succeeded_as ref url).state "dispatching" ≡ false
    unfolding succeeded_as
    succeeded_moves none url = refl
    succeeded_moves (some ref) url = refl

    pub settle_dispatch-IsRedispatched :
        (answer : Result String DispatchResult)
        → host.dispatch same.retried ≡ answer
        → IsRedispatched host Ready id db (settle_dispatch host id session answer arrived)
    unfolding settle_dispatch failed_as
    settle_dispatch-IsRedispatched (err message) a =
        let error = text_append "retry dispatch raised exception: " message in
        after_failure-IsRedispatched error (failed_as error) refl (ap succeeded a)
    settle_dispatch-IsRedispatched (ok r) a =
        let error : String = elim (filled r.error) [
          | some e ↦ e
          | none ↦ "retry dispatch failed"
        ] in
        either r.success _ _
          (λ s.
            after_success-IsRedispatched r.issue_url (succeeded_as r.session_ref r.issue_url)
              (succeeded_moves r.session_ref r.issue_url) (ap succeeded a ∙ s))
          (λ s. after_failure-IsRedispatched error (failed_as error) refl (ap succeeded a ∙ s))
