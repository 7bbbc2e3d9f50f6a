-- ===== src/Verification/Matrix/Bounds.antt =====
-- The scores of a decision.
use gddp_runtime.Prelude.{
  Result, keep, String, true, false, Option, List, [], ◌∷◌, All, ok, ◌≡◌, subst, arith, Bool-cases,
  inl, inr, All-keep,
}
use gddp_runtime.Prelude.Floats.{FloatOps, InUnit, min_f-InUnit}
use gddp_runtime.Verification.Schemas.{Verdict, DeterministicResult, SemanticOutput}
use gddp_runtime.Verification.Context.{
  DecisionContext, judgments, is_judged_fail, is_judged_indeterminate,
}
use gddp_runtime.Verification.Matrix.{DecideError, decide, matrix, first_match, MatrixRow}
use gddp_runtime.Verification.Signals.{
  signals_semantic_blend, VerificationSignals, overall_confidence,
}
use gddp_runtime.Verification.Signals.Bounds.{
  IsScored, AreInUnit, blend-AreInUnit, all_criteria-AreInUnit, fail_criteria-AreInUnit,
  violation-AreInUnit, blocked-AreInUnit,
}

module _ {F : Type 0} ⦃fl : FloatOps F⦄ where
  -- What every row's signals satisfy, the decision's do.
  first_match-All :
      (P : VerificationSignals F → Type 0) (c : DecisionContext F) (rows : List (MatrixRow F))
      → All (λ r. P (r.signals c)) rows
      → (d : Verdict × VerificationSignals F × String) → first_match rows c ≡ ok d
      → P d.1
  unfolding first_match
  first_match-All P c [] h d e = absurd (cc)
  first_match-All P c (r ∷ rs) h d e = elim (Bool-cases (r.matches c)) [
    | inl m ↦ subst P (signals_of (rw m at e)) h.0
    | inr m ↦ first_match-All P c rs h.1 d (rw m at e)
  ]
    where
      signals_of :
          ◌≡◌ {A = Result DecideError (Verdict × VerificationSignals F × String)}
            (ok (r.verdict, r.signals c, r.required_next_action))
            (ok d)
          → r.signals c ≡ d.1
      signals_of q = ground arith

  rows-AreInUnit : (c : DecisionContext F) → IsScored c → All (λ r. AreInUnit (r.signals c)) matrix
  unfolding matrix
  rows-AreInUnit c h = (
    blocked-AreInUnit c,
    (
      violation-AreInUnit c h,
      (
        fail_criteria-AreInUnit c h,
        (
          blend-AreInUnit c _ false h
              (All-keep (λ j. InUnit j.confidence) is_judged_fail (judgments c) h.judged),
          (
            all_criteria-AreInUnit c h,
            (
              blend-AreInUnit c _ false h h.judged,
              (
                some_judged,
                (
                  blend-AreInUnit c _ true h h.judged,
                  (
                    blend-AreInUnit c [] false h tt,
                    (
                      some_judged,
                      (blend-AreInUnit c _ false h h.judged, (all_criteria-AreInUnit c h, tt)),
                    ),
                  ),
                ),
              ),
            ),
          ),
        ),
      ),
    ),
  )
    where
      some_judged :
          AreInUnit (signals_semantic_blend c (keep is_judged_indeterminate (judgments c)) false)
      some_judged =
          blend-AreInUnit c _ false h
            (All-keep (λ j. InUnit j.confidence) is_judged_indeterminate (judgments c) h.judged)

  -- If every confidence among the evidence lies between 0 and 1, so do the three signals of the
  -- decision and its overall confidence.
  pub decide-InUnit :
      (det : DeterministicResult F) (sem : Option (SemanticOutput F))
      → IsScored (record { deterministic = det; semantic = sem })
      → (v : Verdict) (s : VerificationSignals F) (a : String) → decide det sem ≡ ok (v, s, a)
      → AreInUnit s × InUnit (overall_confidence s)
  unfolding decide overall_confidence
  decide-InUnit det sem h v s a e =
      let signals =
        first_match-All AreInUnit (record { deterministic = det; semantic = sem }) matrix
          (rows-AreInUnit (record { deterministic = det; semantic = sem }) h) (v, s, a) e in
      (signals, min_f-InUnit {F = F} _ _ signals.confidence signals.completeness)
