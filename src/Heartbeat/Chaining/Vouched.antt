-- ===== src/Heartbeat/Chaining/Vouched.antt =====
-- What vouches for the result commit of a dependency.
use gddp_runtime.Prelude.{
  keep-Among, Among, Among-keep, String, Bool, true, false, ◌&&◌, not, Option, none, some, List, [],
  ◌∷◌, or_else, str_eq, eq_iff, Result, ok, err, ◌≡◌, ◌≢◌, ◌↔◌, inl, inr, refl, sym, ap, subst, ◌∙◌,
  arith, Bool-cases, Option-cases,
}
use gddp_runtime.Heartbeat.Chaining.{
  merged_already, updated_after, Sources, first_vouched, vouched_commit, vouched_by, admitted,
  subject_of, result_sessions, is_result_of, job_of, session_receipt_path,
}
use gddp_runtime.Heartbeat.Store.Rows.{order_by-Among, Among-order_by}
use gddp_runtime.Verification.Admission.{
  AdmissionError, ReceiptFile, parsed, read_validated_receipt, receipt_admits, Subject,
}
use gddp_runtime.Heartbeat.Sessions.{filled}
use gddp_runtime.Heartbeat.Store.{Db, SessionRow}
use gddp_runtime.Verification.Admission.Binding.{IsBound, read_validated_receipt-ok_iff}
use gddp_runtime.Verification.Receipt.{VerdictReceipt}

module _ {F : Type 0} where
  -- A session of a job of the dependency that was evaluated with this result commit, which a
  -- receipt on disk about that very attempt admits.
  pub record IsVouched (src : Sources F) (db : Db) (project dep commit : String) : Type 0 where
    pub session : SessionRow
    pub recorded : Among session db.sessions
    pub evaluated : is_result_of project dep session (job_of db session) ≡ true
    pub result : session.result_commit_sha ≡ some commit
    pub named : filled (some commit) ≡ some commit
    pub path : String
    pub stored : session_receipt_path db session ≡ some path
    pub receipt : VerdictReceipt F
    pub file : src.receipt_file path ≡ parsed receipt
    pub bound : IsBound (subject_of db project dep session commit) receipt
    pub admits : receipt_admits receipt ≡ true

pub filled-some : (o : Option String) (t : String) → filled o ≡ some t → o ≡ some t
unfolding filled
filled-some none t h = absurd (cc)
filled-some (some s) t h = ground arith

filled_again : (o : Option String) (t : String) → filled o ≡ some t → filled (some t) ≡ some t
unfolding filled
filled_again none t h = absurd (cc)
filled_again (some s) t h = ground (arith, h)

module _ {F : Type 0} (src : Sources F) where
  admitted-read :
      (file : ReceiptFile F) (s : Subject)
      → admitted src file s ≡ true
      → (r : VerdictReceipt F) × (read_validated_receipt file s ≡ ok r) × (receipt_admits r ≡ true)
  unfolding admitted
  admitted-read file s h = go (read_validated_receipt file s) refl h
    where
      go :
          (o : Result AdmissionError (VerdictReceipt F))
          → read_validated_receipt file s ≡ o
          → elim o [ ok r ↦ receipt_admits r | err e ↦ false ] ≡ true
          → (r : VerdictReceipt F) × (read_validated_receipt file s ≡ ok r)
            × (receipt_admits r ≡ true)
      go (ok r) e h = (r, e, h)
      go (err e) q h = absurd (cc)

  read-admitted :
      (file : ReceiptFile F) (s : Subject) (r : VerdictReceipt F)
      → read_validated_receipt file s ≡ ok r
      → receipt_admits r ≡ true
      → admitted src file s ≡ true
  unfolding admitted
  read-admitted file s r e a =
      ap (λ o. elim o as (λ _. Bool) [ ok r ↦ receipt_admits r | err e ↦ false ]) e ∙ a

  vouched_by-admitted :
      (o : Option String) (s : Subject)
      → vouched_by src o s ≡ true
      → (path : String) × (o ≡ some path) × (admitted src (src.receipt_file path) s ≡ true)
  unfolding vouched_by
  vouched_by-admitted none s h = absurd (cc)
  vouched_by-admitted (some path) s h = (path, refl, h)

  module _ (db : Db) (project dep : String) where
    is_result_of-IsVouched :
        (s : SessionRow) (commit : String)
        → Among s db.sessions
        → is_result_of project dep s (job_of db s) ≡ true
        → filled s.result_commit_sha ≡ some commit
        → vouched_by src (session_receipt_path db s) (subject_of db project dep s commit) ≡ true
        → IsVouched src db project dep commit
    is_result_of-IsVouched s commit m w e h =
        let p = vouched_by-admitted _ _ h in
        let r = admitted-read _ _ p.2 in
        let b = (read_validated_receipt-ok_iff _ _ r.0).0 r.1 in
        record {
          session = s;
          recorded = m;
          evaluated = w;
          result = filled-some s.result_commit_sha commit e;
          named = filled_again s.result_commit_sha commit e;
          path = p.0;
          stored = p.1;
          receipt = r.0;
          file = b.0;
          bound = b.1;
          admits = r.2;
        }

    vouched_commit-some :
        (s : SessionRow) (o : Option String) (commit : String)
        → vouched_commit src db project dep s o ≡ some commit
        → (o ≡ some commit)
          × (vouched_by src (session_receipt_path db s) (subject_of db project dep s commit) ≡ true)
    unfolding vouched_commit
    vouched_commit-some s none commit h = absurd (cc)
    vouched_commit-some s (some c) commit h =
        elim (Bool-cases
          (vouched_by src (session_receipt_path db s) (subject_of db project dep s c))) [
            | inl e ↦
                let q : some c ≡ some commit = rw e at h in
                let same : c ≡ commit = cc in
                (
                  q,
                  subst
                      (λ x.
                        vouched_by src (session_receipt_path db s) (subject_of db project dep s x)
                        ≡ true)
                      same e,
                )
            | inr e ↦ let q : none ≡ some commit = rw e at h in absurd (cc)
          ]

    first_vouched-IsVouched :
        (rows : List SessionRow) (commit : String)
        → ((s : SessionRow)
            → Among s rows
            → Among s db.sessions × (is_result_of project dep s (job_of db s) ≡ true))
        → first_vouched src db project dep rows ≡ some commit
        → IsVouched src db project dep commit
    unfolding first_vouched
    first_vouched-IsVouched [] commit f h = absurd (cc)
    first_vouched-IsVouched (s ∷ rows) commit f h =
        elim (Option-cases (vouched_commit src db project dep s (filled s.result_commit_sha))) [
          | inl e ↦ first_vouched-IsVouched rows commit (λ x m. f x (inr m)) (rw e at h)
          | inr (c, e) ↦
              let q : some c ≡ some commit = rw e at h in
              let v = vouched_commit-some s (filled s.result_commit_sha) commit (e ∙ q) in
              let g = f s (inl refl) in is_result_of-IsVouched s commit g.0 g.1 v.0 v.1
        ]

    pub result_sessions-IsVouched :
        (commit : String)
        → first_vouched src db project dep (result_sessions db project dep) ≡ some commit
        → IsVouched src db project dep commit
    unfolding result_sessions
    result_sessions-IsVouched commit h =
        first_vouched-IsVouched _ commit
          (λ s m. keep-Among _ db.sessions s (order_by-Among updated_after _ s m)) h

  module _ (db : Db) (project dep : String) where
    none_vouched :
        (rows : List SessionRow) (s : SessionRow)
        → first_vouched src db project dep rows ≡ none
        → Among s rows
        → vouched_commit src db project dep s (filled s.result_commit_sha) ≡ none
    unfolding first_vouched
    none_vouched [] s h m = absurd m
    none_vouched (x ∷ rows) s h m =
        go (vouched_commit src db project dep x (filled x.result_commit_sha)) refl h m
          (λ k n. none_vouched rows s k n)
      where
        go :
            (o : Option String)
            → vouched_commit src db project dep x (filled x.result_commit_sha) ≡ o
            → or_else o (first_vouched src db project dep rows) ≡ none
            → Among s (x ∷ rows)
            → (first_vouched src db project dep rows ≡ none
                → Among s rows
                → vouched_commit src db project dep s (filled s.result_commit_sha) ≡ none)
            → vouched_commit src db project dep s (filled s.result_commit_sha) ≡ none
        go (some c) e h m k = absurd (cc)
        go none e h (inl q) k =
            ap
              (λ (r : SessionRow). vouched_commit src db project dep r (filled r.result_commit_sha))
              q
            ∙ e
        go none e h (inr m) k = k h m

    IsVouched-commit :
        (commit : String) (v : IsVouched src db project dep commit)
        → vouched_commit src db project dep v.session (filled v.session.result_commit_sha)
          ≡ some commit
    IsVouched-commit commit v =
        ap (vouched_commit src db project dep v.session) (ap filled v.result ∙ v.named)
        ∙ chosen (
            ap (λ o. vouched_by src o (subject_of db project dep v.session commit)) v.stored
            ∙ vouched)
      where
        read :
            read_validated_receipt
              (src.receipt_file v.path)
              (subject_of db project dep v.session commit)
            ≡ ok v.receipt
        read = (read_validated_receipt-ok_iff _ _ v.receipt).1 (v.file, v.bound)

        vouched : vouched_by src (some v.path) (subject_of db project dep v.session commit) ≡ true
        vouched =
            unfold vouched_by in
            read-admitted (src.receipt_file v.path) (subject_of db project dep v.session commit)
              v.receipt read v.admits

        chosen :
            vouched_by src
                (session_receipt_path db v.session)
                (subject_of db project dep v.session commit)
              ≡ true
            → vouched_commit src db project dep v.session (some commit) ≡ some commit
        chosen h = unfold vouched_commit in rw h refl

    pub unvouched :
        first_vouched src db project dep (result_sessions db project dep) ≡ none
        → ((commit : String) × IsVouched src db project dep commit)
        → ⊥
    unfolding result_sessions
    unvouched h (commit, v) =
        let n = none_vouched _ v.session h (
          Among-order_by updated_after _ v.session
            (Among-keep _ db.sessions v.session v.recorded v.evaluated)) in
        absurd (cc (n, IsVouched-commit commit v))

  -- The head of the checkout is there and has the commit among its ancestors.
  abbrev pub IsMerged : Option String → String → String → Type 0
  IsMerged head path commit =
      (h : String) × (head ≡ some h) × (h ≢ "") × (src.is_ancestor path commit h ≡ true)

  pub merged_already_iff :
      (head : Option String) (path commit : String)
      → (merged_already src head path commit ≡ true) ↔ IsMerged head path commit
  unfolding merged_already
  merged_already_iff none path commit = (λ h. absurd (cc), λ (h, e, f, g). absurd (cc))
  merged_already_iff (some head) path commit = go (str_eq head "") refl
    where
      go :
          (b : Bool)
          → str_eq head "" ≡ b
          → (not b && src.is_ancestor path commit head ≡ true) ↔ (
              (h : String) × (some head ≡ some h)
              × (h ≢ "")
              × (src.is_ancestor path commit h ≡ true))
      go true e = (
        λ h. absurd (cc (h)),
        λ (h, q, f, g). absurd (f (let s : h ≡ head = cc in s ∙ (eq_iff head "").0 e)),
      )
      go false e = (
        λ h. (head, refl, (λ q. absurd (cc (e, (eq_iff head "").1 q))), h),
        λ (h, q, f, g). let s : h ≡ head = cc in ap (src.is_ancestor path commit) (sym s) ∙ g,
      )
