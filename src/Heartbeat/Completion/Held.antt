-- ===== src/Heartbeat/Completion/Held.antt =====
-- A completion that is held, and what an update of the sessions leaves of it.
use gddp_runtime.Prelude.{
  All-imp, String, true, false, Option, none, some, All, str_eq, eq_iff, ◌≡◌, ◌⊎◌, inl, inr, refl,
  sym, ap, subst, ◌∙◌, arith, Bool-cases,
}
use gddp_runtime.Heartbeat.Store.{column_is, Db, SessionRow, set_if, find}
use gddp_runtime.Heartbeat.Store.Rows.{find-some, find-All, find-update, set_if_keeps}
use gddp_runtime.Heartbeat.Completion.{
  Submission, has_id, holds, store_row, conflict_row, set_session,
}

-- What a session row says of the completion that it holds.
pub record SameEnvelope (s' s : SessionRow) : Type 0 where
  pub session : s'.session_db_id ≡ s.session_db_id
  pub digest : s'.completion_digest_sha256 ≡ s.completion_digest_sha256
  pub result : s'.result_commit_sha ≡ s.result_commit_sha
  pub manifest : s'.evidence_manifest_path ≡ s.evidence_manifest_path

pub SameEnvelope-refl : (s : SessionRow) → SameEnvelope s s
SameEnvelope-refl s = record { session = refl; digest = refl; result = refl; manifest = refl }

pub SameEnvelope-trans :
    (a b c : SessionRow) → SameEnvelope a b → SameEnvelope b c → SameEnvelope a c
SameEnvelope-trans a b c p q = record {
  session = p.session ∙ q.session;
  digest = p.digest ∙ q.digest;
  result = p.result ∙ q.result;
  manifest = p.manifest ∙ q.manifest;
}

-- The completion `c` is held, and as `e` has it.
abbrev pub IsHeldAs : String → SessionRow → Db → Type 0
IsHeldAs c e db = (e' : SessionRow) × (find (holds c) db.sessions ≡ some e') × SameEnvelope e' e

-- A session without a completion, or one that holds the completion `id`.
abbrev pub IsFree : String → String → SessionRow → Type 0
IsFree sid id s =
    (str_eq s.session_db_id sid ≡ false) ⊎ (s.completion_id ≡ none) ⊎ (s.completion_id ≡ some id)

holds-id : (id : String) (s : SessionRow) → holds id s ≡ true → s.completion_id ≡ some id
unfolding holds
holds-id id s h = column-id s.completion_id h
  where
    column-id : (o : Option String) → column_is o id ≡ true → o ≡ some id
    column-id none e = absurd (cc)
    column-id (some c) e = ap some ((eq_iff c id).0 e)

module _ (c : String) (e : SessionRow) (db : Db) (held : find (holds c) db.sessions ≡ some e) where
  held_id : e.completion_id ≡ some c
  held_id = holds-id c e (find-some (holds c) db.sessions e held)

  -- An update that leaves the completions, and the envelope of this row.
  update-IsHeldAs :
      (sid : String) (f : SessionRow → SessionRow)
      → All (λ s. holds c (set_if (has_id sid) f s) ≡ holds c s) db.sessions
      → SameEnvelope (set_if (has_id sid) f e) e
      → IsHeldAs c e (set_session sid f db)
  unfolding set_session
  update-IsHeldAs sid f keeps same =
      (set_if (has_id sid) f e, find-update (holds c) (has_id sid) f db.sessions e keeps held, same)

  -- Another session's update leaves this row.
  pub other-IsHeldAs :
      (sid : String) (f : SessionRow → SessionRow)
      → ((s : SessionRow) → holds c (f s) ≡ holds c s)
      → has_id sid e ≡ false
      → IsHeldAs c e (set_session sid f db)
  unfolding set_if
  other-IsHeldAs sid f keeps other =
      update-IsHeldAs sid f (set_if_keeps (holds c) (has_id sid) f db.sessions keeps)
        (rw other (SameEnvelope-refl e))

  -- A free session is another one than that of `e`, unless it holds `c` itself.
  free_other :
      (sid id : String)
      → All (IsFree sid id) db.sessions
      → str_eq id c ≡ false
      → has_id sid e ≡ false
  free_other sid id free other = go (find-All (IsFree sid id) (holds c) db.sessions e free held)
    where
      go : IsFree sid id e → has_id sid e ≡ false
      go (inl h) = h
      go (inr (inl h)) = absurd (cc (held_id, h))
      go (inr (inr h)) = absurd (ground (arith, held_id, h, eq_iff id c))

  other_id : (id : String) → find (holds id) db.sessions ≡ none → str_eq id c ≡ false
  other_id id absent = elim (Bool-cases (str_eq id c)) [
    | inl same ↦
        let none_held =
          subst (λ i. find (holds i) db.sessions ≡ none) ((eq_iff id c).0 same) absent in
        absurd (cc (none_held, held))
    | inr h ↦ h
  ]

  -- A new completion on a free session is another one.
  pub stored-IsHeldAs :
      (id digest : String) (q : Submission)
      → find (holds id) db.sessions ≡ none
      → All (IsFree q.session_db_id id) db.sessions
      → IsHeldAs c e (set_session q.session_db_id (store_row id digest q) db)
  unfolding set_if store_row holds
  stored-IsHeldAs id digest q absent free =
      update-IsHeldAs q.session_db_id (store_row id digest q)
        (All-imp _ _ (λ s h. kept s h) db.sessions free)
        (rw (free_other q.session_db_id id free (other_id id absent)) (SameEnvelope-refl e))
    where
      kept :
          (s : SessionRow)
          → IsFree q.session_db_id id s
          → holds c (set_if (has_id q.session_db_id) (store_row id digest q) s) ≡ holds c s
      kept s (inl h) = ground arith
      kept s (inr (inl h)) = ground (arith, other_id id absent)
      kept s (inr (inr h)) = ground (arith, other_id id absent)

  -- The incoming session is another one than that of `e` where the one that holds the incoming
  -- completion is.
  pub other_session :
      (sid id : String) (x : SessionRow)
      → All (IsFree sid id) db.sessions
      → find (holds id) db.sessions ≡ some x
      → str_eq x.session_db_id sid ≡ false
      → has_id sid e ≡ false
  other_session sid id x free existing other =
      go (find-All (IsFree sid id) (holds c) db.sessions e free held)
    where
      go : IsFree sid id e → has_id sid e ≡ false
      go (inl h) = h
      go (inr (inl h)) = absurd (cc (held_id, h))
      go (inr (inr h)) =
          let same_id : some id ≡ some c = sym h ∙ held_id in
          let ids : id ≡ c = cc in
          let found_e = subst (λ i. find (holds i) db.sessions ≡ some x) ids existing in
          let same_row : some x ≡ some e = sym found_e ∙ held in
          let rows : x ≡ e = cc in subst (λ r. str_eq r.session_db_id sid ≡ false) rows other

  conflict-SameEnvelope :
      (sid reason : String) (q : Submission) (s : SessionRow)
      → SameEnvelope (set_if (has_id sid) (conflict_row reason q) s) s
  unfolding set_if conflict_row
  conflict-SameEnvelope sid reason q s = elim (Bool-cases (has_id sid s)) [
    | inl h ↦ rw h (record { session = refl; digest = refl; result = refl; manifest = refl })
    | inr h ↦ rw h (SameEnvelope-refl s)
  ]

  pub conflict-IsHeldAs :
      (sid reason : String) (q : Submission)
      → IsHeldAs c e (set_session sid (conflict_row reason q) db)
  unfolding conflict_row holds
  conflict-IsHeldAs sid reason q =
      update-IsHeldAs sid (conflict_row reason q)
        (set_if_keeps (holds c) (has_id sid) (conflict_row reason q) db.sessions (λ s. refl))
        (conflict-SameEnvelope sid reason q e)
