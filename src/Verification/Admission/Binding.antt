-- ===== src/Verification/Admission/Binding.antt =====
-- A receipt that is read counts for one subject only.
use gddp_runtime.Prelude.{
  guard-ok, String, true, Option, none, some, eq_iff, ok, ◌≡◌, ◌↔◌, ◌⊎◌, inl, inr, refl, sym, ap,
  subst, arith,
}
use gddp_runtime.Verification.Receipt.{VerdictReceipt}
use gddp_runtime.Verification.Admission.{
  Subject, ReceiptFile, parsed, read_validated_receipt, is_text, base_matches, check_subject,
  open_receipt,
}

module _ {F : Type 0} where
  -- The receipt is about the job's project, node, attempt and result commit, and was built on the
  -- base that is asked for, if one is.
  pub record IsBound (s : Subject) (r : VerdictReceipt F) : Type 0 where
    pub project : r.project_id ≡ s.project_id
    pub node : r.node_id ≡ s.node_id
    pub job : r.job_id ≡ some s.job_id
    pub attempt : r.execution_attempt_id ≡ some s.execution_attempt_id
    pub merged : r.merge_commit_sha ≡ some s.result_commit_sha
    pub evaluated : r.evaluated_commit_sha ≡ some s.result_commit_sha
    pub base :
        (s.expected_base_commit_sha ≡ none)
        ⊎ (r.expected_base_commit_sha ≡ s.expected_base_commit_sha)

pub is_text_iff : (o : Option String) (v : String) → (is_text o v ≡ true) ↔ (o ≡ some v)
is_text_iff none v = (λ h. absurd (cc), λ h. absurd (cc))
is_text_iff (some t) v = (λ h. ap some ((eq_iff t v).0 h), λ h. (eq_iff t v).1 (ground arith))

base_matches_iff : (o b : Option String) → (base_matches o b ≡ true) ↔ ((b ≡ none) ⊎ (o ≡ b))
base_matches_iff o none = (λ h. inl refl, λ h. refl)
base_matches_iff o (some b) =
    (λ h. inr ((is_text_iff o b).0 h), λ h. ground (arith, is_text_iff o b))

module _ {F : Type 0} (s : Subject) (r q : VerdictReceipt F) where
  check_subject-IsBound : check_subject s r ≡ ok q → (q ≡ r) × IsBound s r
  unfolding check_subject
  check_subject-IsBound h =
      let a = guard-ok _ _ _ _ h in
      let b = guard-ok _ _ _ _ a.1 in
      let c = guard-ok _ _ _ _ b.1 in
      let d = guard-ok _ _ _ _ c.1 in
      let e = guard-ok _ _ _ _ d.1 in
      let f = guard-ok _ _ _ _ e.1 in
      let g = guard-ok _ _ _ _ f.1 in
      (
        ground (arith, g.1),
        record {
          project = (eq_iff _ _).0 a.0;
          node = (eq_iff _ _).0 b.0;
          job = (is_text_iff _ _).0 c.0;
          attempt = (is_text_iff _ _).0 d.0;
          merged = (is_text_iff _ _).0 e.0;
          evaluated = (is_text_iff _ _).0 f.0;
          base = (base_matches_iff _ _).0 g.0;
        },
      )

  IsBound-check_subject : IsBound s r → check_subject s r ≡ ok r
  unfolding check_subject
  IsBound-check_subject h = rw (
    (eq_iff _ _).1 h.project,
    (eq_iff _ _).1 h.node,
    (is_text_iff _ _).1 h.job,
    (is_text_iff _ _).1 h.attempt,
    (is_text_iff _ _).1 h.merged,
    (is_text_iff _ _).1 h.evaluated,
    (base_matches_iff r.expected_base_commit_sha s.expected_base_commit_sha).1 h.base,
  )

module _ {F : Type 0} where
  -- A stored receipt is accepted for a job exactly where the file at its path parses to it and it
  -- is about that job's project, node, attempt, result commit and base; every other file, missing,
  -- unreadable, malformed or about another subject, is an error.
  pub read_validated_receipt-ok_iff :
      (file : ReceiptFile F) (s : Subject) (r : VerdictReceipt F)
      → (read_validated_receipt file s ≡ ok r) ↔ ((file ≡ parsed r) × IsBound s r)
  unfolding read_validated_receipt open_receipt
  read_validated_receipt-ok_iff (parsed q) s r = (
    λ h.
        let b = check_subject-IsBound s q r h in
        (ap parsed (sym b.0), subst (IsBound s) (sym b.0) b.1),
    λ h. let same : q ≡ r = ground (arith, h.0) in rw same (IsBound-check_subject s r r h.1),
  )
  read_validated_receipt-ok_iff _ s r = (λ h. absurd (cc), λ h. absurd (ground (arith, h.0)))
