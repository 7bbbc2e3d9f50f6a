-- ===== src/Heartbeat/Recovery.antt =====
-- scripts/runtime/heartbeat/state_recorder.py: expired reservations, and the sessions that a tick
-- polls.
pub mod Expired
use gddp_runtime.Prelude.{
  ℕ, zero, suc, ◌+◌, ◌-◌, ◌≤◌, ◌<◌, String, Bool, true, false, ◌&&◌, ◌||◌, not, Option, none, some,
  List, [], ◌∷◌, ◌++◌, map, any, all, keep, All, nonempty, length, mem, if◌then◌else◌, ltb, leb,
  ◌==◌, str_eq, eq_iff, eq_refl, or_else, is_some, Result, ok, err, ◌>>=◌, ◌>>◌, guard, ◌≡◌, ◌≢◌,
  ◌↔◌, ◌⊎◌, inl, inr, refl, sym, ap, subst, ◌∙◌, arith, Bool-cases, Option-cases,
}
use gddp_runtime.Heartbeat.Store.{Db, JobRow, SessionRow, update, count, find, order_by}
use gddp_runtime.Heartbeat.Recorder.{mark_job_failed}

abbrev job_for : Db → SessionRow → Option JobRow
job_for db s = find (λ j. str_eq j.job_id s.job_id) db.jobs

unfoldable pub in_repo : Option String → JobRow → Bool
in_repo none j = true
in_repo (some repo) j = str_eq j.repo repo

-- The `WHERE` of the query, on a session and the job that it is joined with.
unfoldable pub is_stale_reservation : ℕ → Option String → SessionRow → Option JobRow → Bool
unfolding in_repo
is_stale_reservation cutoff repo s none = false
is_stale_reservation cutoff repo s (some j) =
    str_eq s.state "dispatching"
    && leb s.updated_at cutoff
    && s.attempt_index == j.attempt
    && not (str_eq j.status "cancelled")
    && in_repo repo j

unfoldable pub stale_reservations : ℕ → Option String → Db → List SessionRow
unfolding is_stale_reservation
stale_reservations cutoff repo db =
    order_by (λ a b. ltb a.updated_at b.updated_at)
      (keep (λ s. is_stale_reservation cutoff repo s (job_for db s)) db.sessions)

abbrev pub recovery_reason : String
recovery_reason =
    "dispatch outcome unknown after heartbeat restart; reservation lease expired; not retried automatically; operator recovery required"

unfoldable pub is_expired : ℕ → String → SessionRow → Bool
is_expired cutoff id s =
    str_eq s.session_db_id id && str_eq s.state "dispatching" && leb s.updated_at cutoff

unfoldable pub expire : ℕ → SessionRow → SessionRow
expire now s = record s {
  state = "dispatch_failed";
  error = some recovery_reason;
  updated_at = now;
}

-- `updated.rowcount != 1` skips the row.
unfoldable pub fail_recovered : String → Bool → Db → Db × Bool
fail_recovered job_id true db = (mark_job_failed job_id db, true)
fail_recovered job_id false db = (db, false)

module _ (now cutoff : ℕ) where
  -- One row of the loop: the database after it, and whether the row was recovered.
  unfoldable pub recover_row : SessionRow → Db → Db × Bool
  unfolding is_expired expire fail_recovered
  recover_row s db =
      let moved : Db = record db {
        sessions = update (is_expired cutoff s.session_db_id) (expire now) db.sessions;
      } in
      fail_recovered s.job_id (count (is_expired cutoff s.session_db_id) db.sessions == 1) moved

  unfoldable pub recover_rows : List SessionRow → Db → Db × List String
  unfolding recover_row
  recover_rows [] db = (db, [])
  recover_rows (s ∷ rows) db =
      let one = recover_row s db in
      let rest = recover_rows rows one.0 in
      (rest.0, if one.1 then s.session_db_id ∷ rest.1 else rest.1)

  unfoldable pub recover_stale_dispatching_sessions : Option String → Db → Db × List String
  unfolding recover_rows stale_reservations
  recover_stale_dispatching_sessions repo db = recover_rows (stale_reservations cutoff repo db) db

abbrev pub active_session_states : List String
active_session_states =
    "dispatched" ∷ "running" ∷ "awaiting_reply" ∷ "needs_operator" ∷ "collected" ∷ []

of_repo : Option String → Option JobRow → Bool
of_repo none job = true
of_repo (some repo) none = false
of_repo (some repo) (some j) = str_eq j.repo repo

-- `repo` is none, or not empty.
unfoldable pub get_active_executor_sessions : Option String → Db → List SessionRow
unfolding of_repo
get_active_executor_sessions repo db =
    order_by (λ a b. ltb a.created_at b.created_at)
      (keep (λ s. mem s.state active_session_states && of_repo repo (job_for db s)) db.sessions)

unfoldable pub get_executor_session_by_id : String → Db → Option SessionRow
get_executor_session_by_id id db = find (λ s. str_eq s.session_db_id id) db.sessions
