-- ===== src/Verification/Matrix/Pass.antt =====
-- When the matrix passes a node, and when it decides at all, by the evidence itself.
use gddp_runtime.Prelude.{
  String, Bool, true, false, not, Option, none, some, List, [], ◌∷◌, any, all, All, nonempty,
  Result, ok, err, ◌≡◌, ◌≢◌, ◌↔◌, ◌⊎◌, refl, sym, ◌∙◌, arith, inl, inr, any-false, all-true,
  any_of_All, all_of_All, All-imp, mem, str_eq, eq_iff,
}
use gddp_runtime.Prelude.Floats.{FloatOps}
use gddp_runtime.Verification.Schemas.{
  Verdict, DeterministicResult, SemanticOutput, CriterionCheck, CriterionJudgment,
}
use gddp_runtime.Verification.Context.{
  DecisionContext, deps_incomplete, constraint_violated, any_fail, all_pass, any_indeterminate,
  artifacts_missing, judgments, any_judged_fail, all_judged_pass, budget_exhausted, judgments_empty,
  is_judged_fail, is_judged_pass, satisfied_dep_statuses,
}
use gddp_runtime.Verification.Matrix.{DecideError, decide, matrix_exhausted}
use gddp_runtime.Verification.Matrix.Reference.{
  expected, expected_semantic, verdict_of, decide-eq-expected,
}
use gddp_runtime.Verification.Signals.{VerificationSignals}

true_of_not : (b : Bool) → not b ≡ false → b ≡ true
true_of_not b h = ground arith

false_of_not : (b : Bool) → b ≡ true → not b ≡ false
false_of_not b h = ground arith

module _ {F : Type 0} where
  -- Every criterion is a deterministic pass.
  abbrev pub AllPass : DeterministicResult F → Type 0
  AllPass det =
      (nonempty det.criteria ≡ true) × All (λ k. str_eq k.status "pass" ≡ true) det.criteria

  -- Some criterion was unsettled, and the semantic lane, within its budget, gave judgments, each of
  -- them a pass. Nothing compares the judgments with the criteria.
  pub record JudgedPass (det : DeterministicResult F) (s : SemanticOutput F) : Type 0 where
    pub unsettled : any (λ k. str_eq k.status "indeterminate") det.criteria ≡ true
    pub budget : s.budget_exhausted ≡ false
    pub judged : nonempty s.judgments ≡ true
    pub passes : All (λ j. is_judged_pass j ≡ true) s.judgments

  pub record Clean (det : DeterministicResult F) : Type 0 where
    pub deps : All (λ d. mem d.1 satisfied_dep_statuses ≡ true) det.deps_status
    pub constraints : All (λ k. str_eq k.status "violated" ≡ false) det.constraints
    pub criteria : All (λ k. str_eq k.status "fail" ≡ false) det.criteria
    pub artifacts : All (λ a. a.1 ≡ true) det.artifacts_present

  abbrev ctx : DeterministicResult F → Option (SemanticOutput F) → DecisionContext F
  ctx det sem = record { deterministic = det; semantic = sem }

  abbrev CleanFlags : DecisionContext F → Type 0
  CleanFlags c =
      (deps_incomplete c ≡ false)
      × (constraint_violated c ≡ false)
      × (any_fail c ≡ false)
      × (artifacts_missing c ≡ false)

  CleanFlags-Clean :
      (det : DeterministicResult F) (sem : Option (SemanticOutput F))
      → CleanFlags (ctx det sem)
      → Clean det
  unfolding deps_incomplete constraint_violated any_fail artifacts_missing
  CleanFlags-Clean det sem h = record {
    deps = All-imp _ _ (λ d. true_of_not _) det.deps_status (any-false _ det.deps_status h.0);
    constraints = any-false _ det.constraints h.1;
    criteria = any-false _ det.criteria h.2;
    artifacts =
        All-imp _ _ (λ a. true_of_not _) det.artifacts_present
          (any-false _ det.artifacts_present h.3);
  }

  flags_of_Clean :
      (det : DeterministicResult F) (sem : Option (SemanticOutput F))
      → Clean det
      → CleanFlags (ctx det sem)
  unfolding deps_incomplete constraint_violated any_fail artifacts_missing
  flags_of_Clean det sem h = (
    any_of_All _ det.deps_status (All-imp _ _ (λ d. false_of_not _) det.deps_status h.deps),
    any_of_All _ det.constraints h.constraints,
    any_of_All _ det.criteria h.criteria,
    any_of_All _ det.artifacts_present
        (All-imp _ _ (λ a. false_of_not _) det.artifacts_present h.artifacts),
  )

  abbrev PassFlags : DecisionContext F → Type 0
  PassFlags c =
      (all_pass c ≡ true)
      ⊎ ((any_indeterminate c ≡ true) × (all_judged_pass c ≡ true) × (budget_exhausted c ≡ false))

  expected_pass :
      (c : DecisionContext F) → expected c ≡ some Verdict.pass → CleanFlags c × PassFlags c
  unfolding expected expected_semantic
  expected_pass c h = ground arith

  all_pass_judgments :
      (js : List (CriterionJudgment F))
      → all is_judged_pass js ≡ true
      → any is_judged_fail js ≡ false
  all_pass_judgments [] h = refl
  all_pass_judgments (j ∷ js) h = ground (arith, all_pass_judgments js)

  judged_pass-no_fail :
      (c : DecisionContext F) → all_judged_pass c ≡ true → any_judged_fail c ≡ false
  unfolding all_judged_pass any_judged_fail
  judged_pass-no_fail c h = ground (arith, all_pass_judgments (judgments c))

  judged_pass-nonempty :
      (c : DecisionContext F) → all_judged_pass c ≡ true → judgments_empty c ≡ false
  unfolding all_judged_pass judgments_empty
  judged_pass-nonempty c h = ground arith

  expected_of_pass :
      (c : DecisionContext F) → CleanFlags c → PassFlags c → expected c ≡ some Verdict.pass
  unfolding expected expected_semantic
  expected_of_pass c h p = ground (arith, judged_pass-no_fail c, judged_pass-nonempty c)

  -- A pass by the deterministic evidence, or by the judgments where that is unsettled.
  abbrev pub Evidence : DeterministicResult F → Option (SemanticOutput F) → Type 0
  Evidence det sem = AllPass det ⊎ ((s : SemanticOutput F) × (sem ≡ some s) × JudgedPass det s)

  PassFlags-Evidence :
      (det : DeterministicResult F) (sem : Option (SemanticOutput F))
      → PassFlags (ctx det sem)
      → Evidence det sem
  unfolding all_pass any_indeterminate all_judged_pass budget_exhausted judgments
  PassFlags-Evidence det sem (inl h) = inl (ground arith, all-true _ det.criteria (ground arith))
  PassFlags-Evidence det none (inr h) = absurd (ground arith)
  PassFlags-Evidence det (some s) (inr h) = inr (
    s,
    refl,
    record {
      unsettled = h.0;
      budget = h.2;
      judged = ground arith;
      passes = all-true _ s.judgments (ground arith);
    },
  )

  flags_of_Evidence :
      (det : DeterministicResult F) (sem : Option (SemanticOutput F))
      → Evidence det sem
      → PassFlags (ctx det sem)
  unfolding all_pass any_indeterminate all_judged_pass budget_exhausted judgments
  flags_of_Evidence det sem (inl h) = inl (ground (arith, all_of_All _ det.criteria h.1))
  flags_of_Evidence det none (inr h) = absurd (ground (arith, h.1))
  flags_of_Evidence det (some s) (inr (s', e, h)) =
      let same : s ≡ s' = ground arith in
      inr (h.unsettled, ground (arith, all_of_All _ s'.judgments h.passes), ground arith)

  -- The matrix decides whatever the lanes found, once there is a criterion and each has one of the
  -- three statuses that the probes give.
  abbrev pub IsStatus : CriterionCheck F → Type 0
  IsStatus k = (k.status ≡ "pass") ⊎ (k.status ≡ "fail") ⊎ (k.status ≡ "indeterminate")

  settled :
      (ks : List (CriterionCheck F))
      → All IsStatus ks
      → any (λ k. str_eq k.status "fail") ks ≡ false
      → any (λ k. str_eq k.status "indeterminate") ks ≡ false
      → all (λ k. str_eq k.status "pass") ks ≡ true
  settled [] h f i = refl
  settled (k ∷ ks) (inl e, h) f i = ground (arith, settled ks h, eq_iff k.status "pass")
  settled (k ∷ ks) (inr e, h) f i =
      ground (arith, settled ks h, eq_iff k.status "fail", eq_iff k.status "indeterminate")

  expected_total :
      (c : DecisionContext F)
      → nonempty c.deterministic.criteria ≡ true
      → All IsStatus c.deterministic.criteria
      → expected c ≢ none
  unfolding expected any_fail any_indeterminate all_pass
  expected_total c n h = ground (arith, settled c.deterministic.criteria h)

  expected_no_criteria :
      (c : DecisionContext F)
      → c.deterministic.criteria ≡ []
      → deps_incomplete c ≡ false
      → constraint_violated c ≡ false
      → expected c ≡ none
  unfolding expected any_fail any_indeterminate all_pass
  expected_no_criteria c e d k = ground arith

module _ {F : Type 0} ⦃fl : FloatOps F⦄ where
  -- The matrix decides "pass" exactly where every dependency is complete or provisional, no
  -- constraint is violated, no criterion failed and every required artifact is present, and either
  -- there are criteria and all are deterministic passes, or some criterion is indeterminate and the
  -- semantic lane, within its budget, gave judgments that are all passes.
  pub decide-pass_iff :
      (det : DeterministicResult F) (sem : Option (SemanticOutput F))
      → (verdict_of (decide det sem) ≡ some Verdict.pass) ↔ (Clean det × Evidence det sem)
  decide-pass_iff det sem = (
    λ h.
        let flags = expected_pass (ctx det sem) (sym (decide-eq-expected det sem) ∙ h) in
        (CleanFlags-Clean det sem flags.0, PassFlags-Evidence det sem flags.1),
    λ e.
        decide-eq-expected det sem
        ∙ expected_of_pass (ctx det sem) (flags_of_Clean det sem e.0)
            (flags_of_Evidence det sem e.1),
  )

  decided :
      (r : Result DecideError (Verdict × VerificationSignals F × String))
      → verdict_of r ≢ none
      → (d : Verdict × VerificationSignals F × String) × (r ≡ ok d)
  decided (ok d) h = (d, refl)
  decided (err e) h = absurd (h refl)

  -- Where there is a criterion and each has one of the statuses "pass", "fail" and "indeterminate",
  -- the matrix is not exhausted, whatever else the lanes found.
  pub decide_total :
      (det : DeterministicResult F) (sem : Option (SemanticOutput F))
      → nonempty det.criteria ≡ true
      → All IsStatus det.criteria
      → (d : Verdict × VerificationSignals F × String) × (decide det sem ≡ ok d)
  decide_total det sem n h =
      decided (decide det sem)
        (λ e. expected_total (ctx det sem) n h (sym (decide-eq-expected det sem) ∙ e))

  undecided :
      (r : Result DecideError (Verdict × VerificationSignals F × String))
      → verdict_of r ≡ none
      → r ≡ err matrix_exhausted
  undecided (ok d) h = cc
  undecided (err matrix_exhausted) h = refl

  -- A node without criteria raises instead of getting a verdict, once its dependencies are met and
  -- no constraint is violated.
  pub decide-no_criteria :
      (det : DeterministicResult F) (sem : Option (SemanticOutput F))
      → det.criteria ≡ []
      → All (λ d. mem d.1 satisfied_dep_statuses ≡ true) det.deps_status
      → All (λ k. str_eq k.status "violated" ≡ false) det.constraints
      → decide det sem ≡ err matrix_exhausted
  unfolding deps_incomplete constraint_violated
  decide-no_criteria det sem e d k = undecided (decide det sem) (
      decide-eq-expected det sem
      ∙ expected_no_criteria (ctx det sem) e (deps_flag d) (any_of_All _ det.constraints k))
    where
      deps_flag :
          All (λ d. mem d.1 satisfied_dep_statuses ≡ true) det.deps_status
          → deps_incomplete (ctx det sem) ≡ false
      deps_flag h =
          any_of_All _ det.deps_status (All-imp _ _ (λ d. false_of_not _) det.deps_status h)
