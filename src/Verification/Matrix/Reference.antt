-- ===== src/Verification/Matrix/Reference.antt =====
-- The verdict that the twelve rows mean, as one nested decision.
use gddp_runtime.Prelude.{
  String, true, false, ◌||◌, not, Option, none, some, List, [], ◌∷◌, any, all, Result, ok, err,
  if◌then◌else◌, ◌≡◌, refl, arith,
}
use gddp_runtime.Prelude.Floats.{FloatOps}
use gddp_runtime.Verification.Schemas.{
  Verdict, DeterministicResult, SemanticOutput, CriterionJudgment,
}
use gddp_runtime.Verification.Context.{
  DecisionContext, deps_incomplete, constraint_violated, any_fail, all_pass, any_indeterminate,
  indeterminate_only, artifacts_missing, artifacts_present, judgments, any_judged_fail,
  all_judged_pass, any_judgment_indeterminate, budget_exhausted, judgments_empty, is_judged_fail,
  is_judged_pass, is_judged_indeterminate,
}
use gddp_runtime.Verification.Matrix.{DecideError, decide, matrix, first_match}
use gddp_runtime.Verification.Signals.{VerificationSignals}

module _ {F : Type 0} where
  -- What the semantic lane decides where the deterministic evidence is indeterminate.
  unfoldable pub expected_semantic : DecisionContext F → Verdict
  expected_semantic c =
      if any_judged_fail c
      then Verdict.fail
      else if budget_exhausted c || judgments_empty c || artifacts_missing c
      then Verdict.needs_more_evidence
      else if all_judged_pass c
      then Verdict.pass
      else Verdict.needs_human_review

  unfoldable pub expected : DecisionContext F → Option Verdict
  expected c =
      if deps_incomplete c
      then some Verdict.blocked
      else if constraint_violated c
      then some Verdict.out_of_scope_change_detected
      else if any_fail c
      then some Verdict.fail
      else if all_pass c
      then some (if artifacts_missing c then Verdict.needs_more_evidence else Verdict.pass)
      else if any_indeterminate c
      then some (expected_semantic c)
      else none

  -- The verdict of a decision; nothing where the matrix is exhausted.
  abbrev pub verdict_of :
      Result DecideError (Verdict × VerificationSignals F × String) → Option Verdict
  verdict_of (ok d) = some d.0
  verdict_of (err e) = none

  judged_cases :
      (js : List (CriterionJudgment F))
      → any is_judged_fail js ≡ false
      → any is_judged_indeterminate js ≡ not (all is_judged_pass js)
  judged_cases [] h = refl
  judged_cases (j ∷ js) h = ground (arith, judged_cases js)

  pub any_judgment_indeterminate_lem :
      (c : DecisionContext F)
      → any_judged_fail c ≡ false
      → judgments_empty c ≡ false
      → any_judgment_indeterminate c ≡ not (all_judged_pass c)
  unfolding any_judged_fail judgments_empty any_judgment_indeterminate all_judged_pass
  any_judgment_indeterminate_lem c h e = ground (arith, judged_cases (judgments c))

  nonempty-all_judged_pass :
      (c : DecisionContext F) → judgments_empty c ≡ true → all_judged_pass c ≡ false
  unfolding judgments_empty all_judged_pass
  nonempty-all_judged_pass c h = ground arith

module _ {F : Type 0} ⦃fl : FloatOps F⦄ where
  semantic_rows :
      (c : DecisionContext F)
      → deps_incomplete c ≡ false
      → constraint_violated c ≡ false
      → any_fail c ≡ false
      → all_pass c ≡ false
      → verdict_of (first_match matrix c)
        ≡ (if any_indeterminate c then some (expected_semantic c) else none)
  unfolding first_match matrix expected_semantic indeterminate_only artifacts_present
  semantic_rows c hd hv hf hp =
      ground (arith, any_judgment_indeterminate_lem c, nonempty-all_judged_pass c)

  first_match-eq-expected : (c : DecisionContext F) → verdict_of (first_match matrix c) ≡ expected c
  unfolding expected first_match matrix artifacts_present indeterminate_only
  first_match-eq-expected c = ground (arith, semantic_rows c)

  -- The decision is that of the nested reference on every input: the same verdict where the matrix
  -- has a matching row, and no verdict exactly where the reference has none.
  pub decide-eq-expected :
      (det : DeterministicResult F) (sem : Option (SemanticOutput F))
      → verdict_of (decide det sem) ≡ expected (record { deterministic = det; semantic = sem })
  unfolding decide
  decide-eq-expected det sem =
      first_match-eq-expected (record { deterministic = det; semantic = sem })
