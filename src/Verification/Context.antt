-- ===== src/Verification/Context.antt =====
-- scripts/runtime/verification/decision_engine.py: `_DecisionContext`, what the matrix tests.
use gddp_runtime.Prelude.{
  String, Bool, true, false, ◌&&◌, ◌||◌, not, Option, none, some, List, [], ◌∷◌, map, any, all,
  keep, nonempty, length, mem, str_eq,
}
use gddp_runtime.Prelude.Floats.{FloatOps}
use gddp_runtime.Verification.Schemas.{
  CriterionCheck, ConstraintCheck, DeterministicResult, SemanticOutput, CriterionJudgment, Judgment,
}

-- Dependency statuses that satisfy an edge.
abbrev pub satisfied_dep_statuses : List String
satisfied_dep_statuses = "complete" ∷ "provisional" ∷ []

pub record DecisionContext (F : Type 0) : Type 0 where
  pub deterministic : DeterministicResult F
  pub semantic : Option (SemanticOutput F)

module _ {F : Type 0} where
  unfoldable pub deps_incomplete : DecisionContext F → Bool
  deps_incomplete c = any (λ d. not (mem d.1 satisfied_dep_statuses)) c.deterministic.deps_status

  unfoldable pub constraint_violated : DecisionContext F → Bool
  constraint_violated c = any (λ k. str_eq k.status "violated") c.deterministic.constraints

  unfoldable pub any_fail : DecisionContext F → Bool
  any_fail c = any (λ k. str_eq k.status "fail") c.deterministic.criteria

  unfoldable pub all_pass : DecisionContext F → Bool
  all_pass c =
      nonempty c.deterministic.criteria
      && all (λ k. str_eq k.status "pass") c.deterministic.criteria

  unfoldable pub any_indeterminate : DecisionContext F → Bool
  any_indeterminate c = any (λ k. str_eq k.status "indeterminate") c.deterministic.criteria

  unfoldable pub indeterminate_only : DecisionContext F → Bool
  indeterminate_only c = not (any_fail c || all_pass c) && any_indeterminate c

  unfoldable pub artifacts_missing : DecisionContext F → Bool
  artifacts_missing c = any (λ a. not a.1) c.deterministic.artifacts_present

  unfoldable pub artifacts_present : DecisionContext F → Bool
  artifacts_present c = not (artifacts_missing c)

  abbrev pub indeterminate_criteria : DecisionContext F → List (CriterionCheck F)
  indeterminate_criteria c = keep (λ k. str_eq k.status "indeterminate") c.deterministic.criteria

  abbrev pub fail_criteria : DecisionContext F → List (CriterionCheck F)
  fail_criteria c = keep (λ k. str_eq k.status "fail") c.deterministic.criteria

  abbrev pub violated_constraints : DecisionContext F → List (ConstraintCheck F)
  violated_constraints c = keep (λ k. str_eq k.status "violated") c.deterministic.constraints

  judgments_of : Option (SemanticOutput F) → List (CriterionJudgment F)
  judgments_of none = []
  judgments_of (some s) = s.judgments

  unfoldable pub judgments : DecisionContext F → List (CriterionJudgment F)
  unfolding judgments_of
  judgments c = judgments_of c.semantic

  abbrev pub is_judged_pass : CriterionJudgment F → Bool
  is_judged_pass j = elim j.judgment [ Judgment.judged_pass ↦ true | _ ↦ false ]

  abbrev pub is_judged_fail : CriterionJudgment F → Bool
  is_judged_fail j = elim j.judgment [ Judgment.judged_fail ↦ true | _ ↦ false ]

  abbrev pub is_judged_indeterminate : CriterionJudgment F → Bool
  is_judged_indeterminate j = elim j.judgment [ Judgment.indeterminate ↦ true | _ ↦ false ]

  unfoldable pub any_judged_fail : DecisionContext F → Bool
  any_judged_fail c = any is_judged_fail (judgments c)

  unfoldable pub all_judged_pass : DecisionContext F → Bool
  all_judged_pass c = nonempty (judgments c) && all is_judged_pass (judgments c)

  unfoldable pub any_judgment_indeterminate : DecisionContext F → Bool
  any_judgment_indeterminate c = any is_judged_indeterminate (judgments c)

  exhausted_of : Option (SemanticOutput F) → Bool
  exhausted_of none = false
  exhausted_of (some s) = s.budget_exhausted

  unfoldable pub budget_exhausted : DecisionContext F → Bool
  unfolding exhausted_of
  budget_exhausted c = exhausted_of c.semantic

  unfoldable pub judgments_empty : DecisionContext F → Bool
  judgments_empty c = not (nonempty (judgments c))

module _ {F : Type 0} ⦃fl : FloatOps F⦄ where
  -- `_mean`: 0.0 of nothing.
  unfoldable pub mean : List F → F
  mean [] = fl.zero_f
  mean (x ∷ xs) = fl.div (fl.sum (x ∷ xs)) (length (x ∷ xs))

  unfoldable pub floor_of : List (CriterionCheck F) → List (CriterionCheck F) → F
  unfolding mean
  floor_of [] criteria = mean (map (λ (k : CriterionCheck F). k.confidence) criteria)
  floor_of (k ∷ ks) criteria = mean (map (λ (k : CriterionCheck F). k.confidence) (k ∷ ks))

  unfoldable pub deterministic_floor_confidence : DecisionContext F → F
  unfolding floor_of
  deterministic_floor_confidence c = floor_of (indeterminate_criteria c) c.deterministic.criteria
