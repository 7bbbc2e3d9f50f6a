-- ===== src/Verification/Retry/Budget.antt =====
-- When a verdict is retried, and how often.
use gddp_runtime.Prelude.{
  ℕ, String, Bool, true, Option, List, eq_iff, ◌≡◌, ◌≢◌, ◌↔◌, ◌⊎◌, inl, inr, arith,
}
use gddp_runtime.Prelude.Int.{ℤ, pos, ◌<ℤ◌}
use gddp_runtime.Verification.Retry.{
  IntegrityJson, CriteriaFinding, JobBudget, has_evidence_references, has_criteria_evidence,
  or_default, should_retry,
}
use gddp_runtime.Verification.Retry.Evidence.{
  HasEvidence, HasCriteriaEvidence, has_evidence_references_iff, has_criteria_evidence_iff,
}

module _ (is_word : ℕ → Bool) where
  guards_iff :
      (verdict : String) (integrity : Option IntegrityJson) (job : JobBudget)
      (retry_budget : Option ℤ) (findings : Option (List CriteriaFinding))
      → (should_retry is_word verdict integrity job retry_budget findings ≡ true) ↔ (
          (verdict ≢ "pass")
          × ((has_evidence_references is_word integrity ≡ true)
              ⊎ (has_criteria_evidence is_word findings ≡ true))
          × (pos 0 <ℤ or_default retry_budget (pos 0))
          × (or_default job.attempt (pos 0) <ℤ or_default retry_budget (pos 0))
          × (or_default job.attempt (pos 0) <ℤ or_default job.max_attempts (pos 3)))
  unfolding should_retry
  guards_iff verdict integrity job budget findings =
      (λ h. ground (arith, eq_iff verdict "pass"), λ h. ground (arith, eq_iff verdict "pass"))

  -- A node is sent back exactly where its verdict is not "pass", one of the lanes gives evidence,
  -- the retry budget is positive, and the attempts made so far are fewer than the budget and than the
  -- job's maximum, which are 0 and 3 where they are not given. The integrity lane gives evidence where
  -- a finding of it refers to a file or names a node, or its reasoning refers to a file; the criteria
  -- lane where a finding of it refers to a file, in its evidence or in its reasoning. A text refers to
  -- a file where a word character or a slash, a dot and a word character stand in a row.
  pub should_retry_iff :
      (verdict : String) (integrity : Option IntegrityJson) (job : JobBudget)
      (retry_budget : Option ℤ) (findings : Option (List CriteriaFinding))
      → (should_retry is_word verdict integrity job retry_budget findings ≡ true) ↔ (
          (verdict ≢ "pass")
          × (HasEvidence is_word integrity ⊎ HasCriteriaEvidence is_word findings)
          × (pos 0 <ℤ or_default retry_budget (pos 0))
          × (or_default job.attempt (pos 0) <ℤ or_default retry_budget (pos 0))
          × (or_default job.attempt (pos 0) <ℤ or_default job.max_attempts (pos 3)))
  should_retry_iff verdict integrity job budget findings =
      let g = guards_iff verdict integrity job budget findings in
      let e = has_evidence_references_iff is_word integrity in
      let c = has_criteria_evidence_iff is_word findings in
      (
        λ h.
            let r = g.0 h in
            (r.0, elim r.1 [ inl p ↦ inl (e.0 p) | inr q ↦ inr (c.0 q) ], r.2, r.3, r.4),
        λ (v, d, b, n, m). g.1 (v, elim d [ inl p ↦ inl (e.1 p) | inr q ↦ inr (c.1 q) ], b, n, m),
      )
