-- ===== src/Heartbeat/Completion/FirstWins.antt =====
-- The first completion of an identity is the one that counts.
use gddp_runtime.Prelude.{
  bind-ok, guard-ok, ok-injective, String, false, Option, none, some, List, All, str_eq, eq_iff, ok,
  ◌≡◌, inl, inr, refl, ap, subst, Bool-cases,
}
use gddp_runtime.Heartbeat.Store.{Db, SessionRow, find}
use gddp_runtime.Heartbeat.Store.Rows.{find-some}
use gddp_runtime.Heartbeat.Completion.{
  CompletionDecision, Submission, has_id, holds, duplicate_row, conflict_row, incoming_row,
  set_session, found_session, normalize_digest, store_completion, replay_completion,
  quarantine_completion, compare_completion, submit_identified, submit_named, submit_completion,
}
use gddp_runtime.Heartbeat.Recorder.{mark_jobs_awaiting_review, set_job_state}
use gddp_runtime.Prelude.Text.{strip}
use gddp_runtime.Heartbeat.Completion.Held.{
  SameEnvelope-refl, SameEnvelope-trans, IsHeldAs, IsFree, other-IsHeldAs, stored-IsHeldAs,
  other_session, conflict-IsHeldAs,
}

incoming-holds :
    (c digest reason : String) (q : Submission) (s : SessionRow)
    → holds c (incoming_row digest reason q s) ≡ holds c s
unfolding holds incoming_row
incoming-holds c digest reason q s = refl

module _ (c : String) (e : SessionRow) (db : Db) (held : find (holds c) db.sessions ≡ some e)
    (id : String) (q : Submission) (free : All (IsFree q.session_db_id id) db.sessions)
    (x incoming : SessionRow) (existing : find (holds id) db.sessions ≡ some x)
    (sent : incoming.session_db_id ≡ q.session_db_id) where
  replay-IsHeldAs : (digest : String) → IsHeldAs c e (replay_completion x incoming digest q db).0
  unfolding replay_completion duplicate_row holds
  replay-IsHeldAs digest = elim (Bool-cases (str_eq x.session_db_id incoming.session_db_id)) [
    | inl h ↦ rw h (e, held, SameEnvelope-refl e)
    | inr h ↦ rw h (
        other-IsHeldAs c e db held q.session_db_id (duplicate_row x digest q) (λ s. refl)
          (other_session c e db held q.session_db_id id x free existing (rw sent at h)))
  ]

  quarantine-IsHeldAs :
      (reason digest : String)
      → IsHeldAs c e (quarantine_completion reason x incoming digest q db).0
  unfolding quarantine_completion mark_jobs_awaiting_review set_job_state
  quarantine-IsHeldAs reason digest =
      elim (Bool-cases (str_eq x.session_db_id incoming.session_db_id)) [
        | inl h ↦ rw h (conflict-IsHeldAs c e db held x.session_db_id reason q)
        | inr h ↦ rw h (both (conflict-IsHeldAs c e db held x.session_db_id reason q) h)
      ]
    where
      first : Db
      first = set_session x.session_db_id (conflict_row reason q) db

      both :
          IsHeldAs c e first
          → str_eq x.session_db_id incoming.session_db_id ≡ false
          → IsHeldAs c e (set_session incoming.session_db_id (incoming_row digest reason q) first)
      both (e1, held1, same) h =
          let other = other_session c e db held q.session_db_id id x free existing (rw sent at h) in
          let away : has_id incoming.session_db_id e1 ≡ false = rw (same.session, sent) other in
          let (e2, held2, same2) =
            other-IsHeldAs c e1 first held1 incoming.session_db_id (incoming_row digest reason q)
              (incoming-holds c digest reason q) away in
          (e2, held2, SameEnvelope-trans e2 e1 e same2 same)

module _ (lower : String → String) (repr : Option String → String) where
  found_session-some :
      (o : Option SessionRow) (s : SessionRow) → found_session o ≡ ok s → o ≡ some s
  unfolding found_session
  found_session-some none s h = absurd (cc)
  found_session-some (some r) s h = ap some (ok-injective r s h)

  found_session-id :
      (sid : String) (rows : List SessionRow) (incoming : SessionRow)
      → found_session (find (has_id sid) rows) ≡ ok incoming
      → incoming.session_db_id ≡ sid
  found_session-id sid rows incoming h =
      (eq_iff incoming.session_db_id sid).0
        (find-some (has_id sid) rows incoming (found_session-some _ incoming h))

  compare-IsHeldAs :
      (c id digest : String) (e incoming : SessionRow) (db : Db) (q : Submission)
      (o : Option SessionRow) (out : Db × CompletionDecision)
      → find (holds c) db.sessions ≡ some e
      → All (IsFree q.session_db_id id) db.sessions
      → incoming.session_db_id ≡ q.session_db_id
      → find (holds id) db.sessions ≡ o
      → compare_completion lower repr id digest q incoming o db ≡ ok out
      → IsHeldAs c e out.0
  unfolding compare_completion store_completion
  compare-IsHeldAs c id digest e incoming db q none out held free sent existing h =
      subst (λ (r : Db × CompletionDecision). IsHeldAs c e r.0) (ok-injective _ out h)
        (stored-IsHeldAs c e db held id digest q existing free)
  compare-IsHeldAs c id digest e incoming db q (some x) out held free sent existing h =
      let d = bind-ok (normalize_digest lower repr x.completion_digest_sha256) _ out h in
      subst (λ (r : Db × CompletionDecision). IsHeldAs c e r.0) (ok-injective _ out d.2)
        (elim (Bool-cases (str_eq d.0 digest)) [
          | inl m ↦ rw m (replay-IsHeldAs c e db held id q free x incoming existing sent d.0)
          | inr m ↦
              rw m (quarantine-IsHeldAs c e db held id q free x incoming existing sent _ digest)
        ])

  -- The first completion of an identity is the one that counts: where a session holds one, a
  -- completion that any session without one submits, of the same identity or of another, and a
  -- session that submits its own again, leave that session its digest, result commit and evidence,
  -- whether the call stores, repeats or quarantines.
  pub submit_completion-IsHeldAs :
      (c : String) (e : SessionRow) (db : Db) (q : Submission) (id : String)
      (out : Db × CompletionDecision)
      → find (holds c) db.sessions ≡ some e
      → q.completion_id ≡ some id
      → All (IsFree q.session_db_id (strip id)) db.sessions
      → submit_completion lower repr q db ≡ ok out
      → IsHeldAs c e out.0
  unfolding submit_completion submit_named submit_identified
  submit_completion-IsHeldAs c e db q id out held named free h =
      let h1 = subst (λ o. submit_named lower repr o q db ≡ ok out) named h in
      let a = guard-ok _ _ _ _ h1 in
      let d = bind-ok (normalize_digest lower repr q.completion_digest_sha256) _ out a.1 in
      let t = guard-ok _ _ _ _ d.2 in
      let f = bind-ok (found_session (find (has_id q.session_db_id) db.sessions)) _ out t.1 in
      compare-IsHeldAs c (strip id) d.0 e f.0 db q _ out held free
        (found_session-id q.session_db_id db.sessions f.0 f.1) refl f.2
