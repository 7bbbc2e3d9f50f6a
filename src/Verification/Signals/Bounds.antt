-- ===== src/Verification/Signals/Bounds.antt =====
-- Every builder of signals keeps them between 0 and 1.
use gddp_runtime.Prelude.{
  Bool, true, false, List, [], ◌∷◌, All, map, length, nonempty, if◌then◌else◌, ◌≡◌, arith, All-keep,
  All-map, All-imp,
}
use gddp_runtime.Prelude.Floats.{
  FloatOps, InUnit, min_f, min_f-InUnit, zero_f-InUnit, one-InUnit, half-InUnit, sub-one-InUnit,
}
use gddp_runtime.Verification.Schemas.{CriterionCheck, ConstraintCheck, CriterionJudgment, Judgment}
use gddp_runtime.Verification.Context.{
  DecisionContext, mean, artifacts_present, judgments, budget_exhausted,
  deterministic_floor_confidence, floor_of, indeterminate_criteria,
}
use gddp_runtime.Verification.Signals.{
  VerificationSignals, signals_blocked, signals_constraint_violation, signals_fail_criteria,
  signals_all_criteria, signals_semantic_blend, blended_confidence, blended_completeness,
  semantic_criteria_confidence, criterion_satisfaction_confidence, satisfaction_of,
}

base-InUnit :
    {F : Type 0} (fl : FloatOps F) (b : Bool) → InUnit ⦃fl = fl⦄ (if b then fl.one else fl.half)
base-InUnit fl true = one-InUnit fl
base-InUnit fl false = half-InUnit fl

module _ {F : Type 0} ⦃fl : FloatOps F⦄ where
  lower : (xs : List F) → All InUnit xs → All (λ x. fl.lt x fl.zero_f ≡ false) xs
  lower xs h = All-imp InUnit _ (λ x p. p.0) xs h

  upper : (xs : List F) → All InUnit xs → All (λ x. fl.lt fl.one x ≡ false) xs
  upper xs h = All-imp InUnit _ (λ x p. p.1) xs h

  mean-InUnit : (xs : List F) → All InUnit xs → InUnit (mean xs)
  unfolding mean
  mean-InUnit [] h = zero_f-InUnit fl
  mean-InUnit (x ∷ xs) h = (
    fl.div-nonneg (fl.sum (x ∷ xs)) (length (x ∷ xs)) (omega arith)
        (fl.sum-nonneg (x ∷ xs) (lower (x ∷ xs) h)),
    fl.div-le-one (fl.sum (x ∷ xs)) (length (x ∷ xs)) (omega arith)
        (fl.sum-le-of_len (x ∷ xs) (upper (x ∷ xs) h)),
  )

  if-InUnit : (b : Bool) (x y : F) → InUnit x → InUnit y → InUnit (if b then x else y)
  if-InUnit true x y hx hy = hx
  if-InUnit false x y hx hy = hy

  -- Every confidence among the evidence lies between 0 and 1.
  pub record IsScored (c : DecisionContext F) : Type 0 where
    pub criteria : All (λ k. InUnit k.confidence) c.deterministic.criteria
    pub constraints : All (λ k. InUnit k.confidence) c.deterministic.constraints
    pub judged : All (λ j. InUnit j.confidence) (judgments c)

  pub record AreInUnit (s : VerificationSignals F) : Type 0 where
    pub confidence : InUnit s.criteria_confidence
    pub completeness : InUnit s.completeness
    pub readiness : InUnit s.graph_readiness

  confidences-InUnit :
      (ks : List (CriterionCheck F))
      → All (λ k. InUnit k.confidence) ks
      → InUnit (mean (map (λ (k : CriterionCheck F). k.confidence) ks))
  confidences-InUnit ks h =
      mean-InUnit _ (All-map InUnit (λ (k : CriterionCheck F). k.confidence) ks h)

  floor_of-InUnit :
      (ks criteria : List (CriterionCheck F))
      → All (λ k. InUnit k.confidence) ks
      → All (λ k. InUnit k.confidence) criteria
      → InUnit (floor_of ks criteria)
  unfolding floor_of
  floor_of-InUnit [] criteria hk h = confidences-InUnit criteria h
  floor_of-InUnit (k ∷ ks) criteria hk h = confidences-InUnit (k ∷ ks) hk

  floor-InUnit : (c : DecisionContext F) → IsScored c → InUnit (deterministic_floor_confidence c)
  unfolding deterministic_floor_confidence
  floor-InUnit c h =
      floor_of-InUnit (indeterminate_criteria c) c.deterministic.criteria
        (All-keep (λ k. InUnit k.confidence) _ c.deterministic.criteria h.criteria) h.criteria

  satisfaction_of-InUnit : (v : Judgment) (x : F) → InUnit x → InUnit (satisfaction_of v x)
  unfolding satisfaction_of
  satisfaction_of-InUnit Judgment.judged_pass x h = h
  satisfaction_of-InUnit Judgment.judged_fail x h = sub-one-InUnit x h
  satisfaction_of-InUnit Judgment.indeterminate x h =
      min_f-InUnit {F = F} x _ h (sub-one-InUnit x h)

  semantic-InUnit :
      (js : List (CriterionJudgment F))
      → All (λ j. InUnit j.confidence) js
      → InUnit (semantic_criteria_confidence js)
  unfolding semantic_criteria_confidence criterion_satisfaction_confidence
  semantic-InUnit js h = mean-InUnit _ (
      All-map InUnit criterion_satisfaction_confidence js (
        All-imp (λ j. InUnit j.confidence) _ (λ j. satisfaction_of-InUnit j.judgment j.confidence)
          js h))

  blended_confidence-InUnit :
      (c : DecisionContext F) (js : List (CriterionJudgment F))
      → IsScored c
      → All (λ j. InUnit j.confidence) js
      → InUnit (blended_confidence c js)
  unfolding blended_confidence
  blended_confidence-InUnit c js h hj =
      if-InUnit (nonempty js) _ _
        (if-InUnit (nonempty (indeterminate_criteria c)) _ _ (semantic-InUnit js hj)
          (min_f-InUnit {F = F} _ _ (floor-InUnit c h) (semantic-InUnit js hj)))
        (floor-InUnit c h)

  blended_completeness-InUnit : (c : DecisionContext F) → InUnit (blended_completeness c)
  unfolding blended_completeness
  blended_completeness-InUnit c =
      if-InUnit (budget_exhausted c) _ _
        (min_f-InUnit {F = F} _ _ (base-InUnit fl (artifacts_present c)) (half-InUnit fl))
        (base-InUnit fl (artifacts_present c))

  pub blend-AreInUnit :
      (c : DecisionContext F) (js : List (CriterionJudgment F)) (capped : Bool)
      → IsScored c
      → All (λ j. InUnit j.confidence) js
      → AreInUnit (signals_semantic_blend c js capped)
  unfolding signals_semantic_blend
  blend-AreInUnit c js capped h hj = record {
    confidence = conf;
    completeness = blended_completeness-InUnit c;
    readiness = if-InUnit _ _ _ conf (zero_f-InUnit fl);
  }
    where
      conf :
          InUnit
            (if capped then min_f (blended_confidence c js) fl.half else blended_confidence c js)
      conf =
          if-InUnit capped _ _
            (min_f-InUnit {F = F} _ _ (blended_confidence-InUnit c js h hj) (half-InUnit fl))
            (blended_confidence-InUnit c js h hj)

  pub all_criteria-AreInUnit :
      (c : DecisionContext F) → IsScored c → AreInUnit (signals_all_criteria c)
  unfolding signals_all_criteria
  all_criteria-AreInUnit c h = record {
    confidence = confidences-InUnit c.deterministic.criteria h.criteria;
    completeness = base-InUnit fl (artifacts_present c);
    readiness =
        if-InUnit _ _ _ (confidences-InUnit c.deterministic.criteria h.criteria) (zero_f-InUnit fl);
  }

  pub fail_criteria-AreInUnit :
      (c : DecisionContext F) → IsScored c → AreInUnit (signals_fail_criteria c)
  unfolding signals_fail_criteria
  fail_criteria-AreInUnit c h = record {
    confidence =
        confidences-InUnit _
          (All-keep (λ k. InUnit k.confidence) _ c.deterministic.criteria h.criteria);
    completeness = one-InUnit fl;
    readiness = zero_f-InUnit fl;
  }

  pub violation-AreInUnit :
      (c : DecisionContext F) → IsScored c → AreInUnit (signals_constraint_violation c)
  unfolding signals_constraint_violation
  violation-AreInUnit c h = record {
    confidence = mean-InUnit _ (
        All-map InUnit (λ (k : ConstraintCheck F). k.confidence) _
          (All-keep (λ k. InUnit k.confidence) _ c.deterministic.constraints h.constraints));
    completeness = one-InUnit fl;
    readiness = zero_f-InUnit fl;
  }

  pub blocked-AreInUnit : (c : DecisionContext F) → AreInUnit (signals_blocked c)
  unfolding signals_blocked
  blocked-AreInUnit c = record {
    confidence = one-InUnit fl;
    completeness = half-InUnit fl;
    readiness = zero_f-InUnit fl;
  }
