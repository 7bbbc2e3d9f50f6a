-- ===== src/Heartbeat/Completion.antt =====
-- scripts/runtime/heartbeat/completion_discipline.py: the comparison of a completion with what is stored.
pub mod Held
pub mod FirstWins
use Prim.Native.Nat.{Ordering}
use Prim.Native.String.{◌++◌ as text_append, compare as compare_text}
use gddp_runtime.Prelude.{
  ℕ, zero, suc, ◌+◌, ◌-◌, ◌≤◌, ◌<◌, String, Bool, true, false, ◌&&◌, ◌||◌, not, Option, none, some,
  List, [], ◌∷◌, ◌++◌, map, any, all, keep, All, nonempty, length, mem, if◌then◌else◌, ltb, leb,
  ◌==◌, str_eq, eq_iff, eq_refl, or_else, is_some, Result, ok, err, ◌>>=◌, ◌>>◌, guard, ◌≡◌, ◌≢◌,
  ◌↔◌, ◌⊎◌, inl, inr, refl, sym, ap, subst, ◌∙◌, arith, Bool-cases, Option-cases,
}
use gddp_runtime.Prelude.Text.{codes, strip, empty_text}
use gddp_runtime.Heartbeat.Store.{column_is, Db, SessionRow, update, find}
use gddp_runtime.Heartbeat.Recorder.{mark_jobs_awaiting_review}

pub data CompletionAction : Type 0 where
  proceed stored duplicate quarantined : CompletionAction

pub record CompletionDecision : Type 0 where
  pub action : CompletionAction
  pub existing_session_db_id : Option String
  pub result_commit_sha : Option String
  pub evidence_manifest_path : Option String
  pub quarantine_reason : Option String
  pub quarantined_session_db_ids : List String

-- The exceptions, after which the transaction is rolled back.
pub data CompletionError : Type 0 where
  empty_id digest_missing digest_malformed transaction_open session_not_found : CompletionError

-- The arguments of `submit_completion`, with the caller's transaction state and the clock.
pub record Submission : Type 0 where
  pub session_db_id : String
  pub completion_id : Option String
  pub completion_digest_sha256 : Option String
  pub result_commit_sha : Option String
  pub evidence_manifest_path : Option String
  pub in_transaction : Bool
  pub now : ℕ

-- `string.hexdigits`
is_hex : ℕ → Bool
is_hex c = (leb b'0' c && leb c b'9') || (leb b'a' c && leb c b'f') || (leb b'A' c && leb c b'F')

unfoldable pub is_digest : String → Bool
unfolding is_hex
is_digest s = length (codes s) == 64 && all is_hex (codes s)

abbrev pub has_id : String → SessionRow → Bool
has_id id s = str_eq s.session_db_id id

unfoldable pub holds : String → SessionRow → Bool
holds id s = column_is s.completion_id id

unfoldable pub store_row : String → String → Submission → SessionRow → SessionRow
store_row id digest q s = record s {
  completion_id = some id;
  completion_digest_sha256 = some digest;
  result_commit_sha = or_else q.result_commit_sha s.result_commit_sha;
  evidence_manifest_path = or_else q.evidence_manifest_path s.evidence_manifest_path;
  updated_at = q.now;
}

unfoldable pub duplicate_row : SessionRow → String → Submission → SessionRow → SessionRow
duplicate_row existing digest q s = record s {
  state = "completion_duplicate";
  completion_digest_sha256 = some digest;
  result_commit_sha = existing.result_commit_sha;
  evidence_manifest_path = existing.evidence_manifest_path;
  updated_at = q.now;
}

-- The row that holds the completion already.
unfoldable pub conflict_row : String → Submission → SessionRow → SessionRow
conflict_row reason q s = record s {
  state = "completion_quarantined";
  completion_quarantine_reason = some reason;
  error = some reason;
  updated_at = q.now;
}

-- The row of an incoming completion that another row holds.
unfoldable pub incoming_row : String → String → Submission → SessionRow → SessionRow
incoming_row digest reason q s = record s {
  state = "completion_quarantined";
  completion_digest_sha256 = some digest;
  completion_quarantine_reason = some reason;
  result_commit_sha = or_else q.result_commit_sha s.result_commit_sha;
  evidence_manifest_path = or_else q.evidence_manifest_path s.evidence_manifest_path;
  error = some reason;
  updated_at = q.now;
}

unfoldable pub set_session : String → (SessionRow → SessionRow) → Db → Db
set_session id f db = record db { sessions = update (has_id id) f db.sessions }

-- `str(reason).strip() or None`
unfoldable pub stripped : Option String → Option String
unfolding strip
stripped none = none
stripped (some t) = if empty_text (strip t) then none else some (strip t)

-- `tuple(sorted({a, b}))`
unfoldable pub sorted_pair : String → String → List String
sorted_pair a b = elim (compare_text a b) [
  | Ordering.lt ↦ a ∷ b ∷ []
  | Ordering.eq ↦ a ∷ []
  | Ordering.gt ↦ b ∷ a ∷ []
]

unfoldable pub found_session : Option SessionRow → Result CompletionError SessionRow
found_session none = err session_not_found
found_session (some s) = ok s

-- No session holds the completion: the incoming one does from now on.
unfoldable pub store_completion : String → String → Submission → Db → Db × CompletionDecision
store_completion id digest q db = (
  set_session q.session_db_id (store_row id digest q) db,
  record {
    action = CompletionAction.stored;
    existing_session_db_id = some q.session_db_id;
    result_commit_sha = q.result_commit_sha;
    evidence_manifest_path = q.evidence_manifest_path;
    quarantine_reason = none;
    quarantined_session_db_ids = [];
  },
)

-- The digest that is stored already: the first result counts.
unfoldable pub replay_completion :
    SessionRow → SessionRow → String → Submission → Db → Db × CompletionDecision
replay_completion existing incoming digest q db = (
  if str_eq existing.session_db_id incoming.session_db_id
      then db
      else set_session q.session_db_id (duplicate_row existing digest q) db,
  record {
    action = CompletionAction.duplicate;
    existing_session_db_id = some existing.session_db_id;
    result_commit_sha = existing.result_commit_sha;
    evidence_manifest_path = existing.evidence_manifest_path;
    quarantine_reason = stripped existing.completion_quarantine_reason;
    quarantined_session_db_ids = [];
  },
)

-- Another digest: both sessions are quarantined, and their jobs await review.
unfoldable pub quarantine_completion :
    String → SessionRow → SessionRow → String → Submission → Db → Db × CompletionDecision
quarantine_completion reason existing incoming digest q db =
    let first = set_session existing.session_db_id (conflict_row reason q) db in
    let both =
      (if str_eq existing.session_db_id incoming.session_db_id
        then first
        else set_session incoming.session_db_id (incoming_row digest reason q) first) in
    (
      mark_jobs_awaiting_review (existing.job_id ∷ incoming.job_id ∷ []) both,
      record {
        action = CompletionAction.quarantined;
        existing_session_db_id = some existing.session_db_id;
        result_commit_sha = existing.result_commit_sha;
        evidence_manifest_path = existing.evidence_manifest_path;
        quarantine_reason = some reason;
        quarantined_session_db_ids = sorted_pair existing.session_db_id incoming.session_db_id;
      },
    )

-- `lower` is the language's table of small letters, and `repr` its quotation of a text or None.
module _ (lower : String → String) (repr : Option String → String) where
  unfoldable pub normalize_digest : Option String → Result CompletionError String
  normalize_digest none = err digest_missing
  normalize_digest (some v) =
      if is_digest (lower (strip v)) then ok (lower (strip v)) else err digest_malformed

  side : String → String → String → Option String → Option String → String
  side name session digest result manifest = text_append name (
      text_append "(session_db_id=" (
        text_append (repr (some session)) (
          text_append ", digest=" (
            text_append (repr (some digest)) (
              text_append ", result_commit_sha=" (
                text_append (repr result)
                  (text_append ", evidence_manifest_path=" (text_append (repr manifest) ")"))))))))

  unfoldable pub conflict_reason :
      String → SessionRow → String → SessionRow → String → Submission → String
  unfolding side
  conflict_reason id existing existing_digest incoming digest q =
      text_append "conflicting completion_id " (
        text_append (repr (some id)) (
          text_append ": " (
            text_append
              (side "existing" existing.session_db_id existing_digest existing.result_commit_sha
                existing.evidence_manifest_path)
              (text_append "; " (
                side "incoming" incoming.session_db_id digest q.result_commit_sha
                  q.evidence_manifest_path)))))

  unfoldable pub compare_completion :
      String
      → String
      → Submission
      → SessionRow
      → Option SessionRow
      → Db
      → Result CompletionError (Db × CompletionDecision)
  compare_completion id digest q incoming none db = ok (store_completion id digest q db)
  compare_completion id digest q incoming (some existing) db = do
    existing_digest ← normalize_digest existing.completion_digest_sha256
    ok (
        if str_eq existing_digest digest
        then replay_completion existing incoming existing_digest q db
        else quarantine_completion (conflict_reason id existing existing_digest incoming digest q)
            existing incoming digest q db)

  unfoldable pub submit_identified :
      String → Submission → Db → Result CompletionError (Db × CompletionDecision)
  submit_identified id q db = do
    guard (not (empty_text id)) empty_id
    digest ← normalize_digest q.completion_digest_sha256
    guard (not q.in_transaction) transaction_open
    incoming ← found_session (find (has_id q.session_db_id) db.sessions)
    compare_completion id digest q incoming (find (holds id) db.sessions) db

  unfoldable pub submit_named :
      Option String → Submission → Db → Result CompletionError (Db × CompletionDecision)
  submit_named none q db = ok (
    db,
    record {
      action = CompletionAction.proceed;
      existing_session_db_id = none;
      result_commit_sha = none;
      evidence_manifest_path = none;
      quarantine_reason = none;
      quarantined_session_db_ids = [];
    },
  )
  submit_named (some c) q db = submit_identified (strip c) q db

  unfoldable pub submit_completion :
      Submission → Db → Result CompletionError (Db × CompletionDecision)
  unfolding submit_named
  submit_completion q db = submit_named q.completion_id q db
