-- ===== src/Verification/Orchestrator/Admits.antt =====
-- What a run's receipt says of the evidence, and that a run gives one.
use gddp_runtime.Prelude.{
  bind-ok, String, Bool, true, false, Option, none, some, List, [], ◌∷◌, any, All, nonempty, str_eq,
  eq_iff, Result, ok, err, ◌≡◌, ◌⊎◌, inl, inr, refl, ap, subst, ◌∙◌, arith,
}
use gddp_runtime.Prelude.Floats.{FloatOps, InUnit}
use gddp_runtime.Verification.Schemas.{
  CriterionCheck, DeterministicResult, SemanticOutput, IntegrityOutput, Verdict, IntegrityVerdict,
}
use gddp_runtime.Verification.Context.{judgments}
use gddp_runtime.Verification.Signals.{VerificationSignals, overall_confidence}
use gddp_runtime.Verification.Signals.Bounds.{IsScored, AreInUnit}
use gddp_runtime.Verification.Matrix.{DecideError, decide}
use gddp_runtime.Verification.Matrix.Reference.{verdict_of}
use gddp_runtime.Verification.Matrix.Pass.{
  Clean, Evidence, JudgedPass, IsStatus, decide-pass_iff, decide_total,
}
use gddp_runtime.Verification.Matrix.Bounds.{decide-InUnit}
use gddp_runtime.Verification.Combiner.{combine}
use gddp_runtime.Verification.Receipt.{
  VerdictReceipt, scores_valid, in_range, infer_completeness_status,
}
use gddp_runtime.Verification.Admission.{receipt_admits}
use gddp_runtime.Verification.Orchestrator.{
  Run, verify, run_semantic, run_integrity, should_run_semantic, lift_decide, validated,
  build_receipt,
}

lift_decide-ok : {A : Type 0} (m : Result DecideError A) (a : A) → lift_decide m ≡ ok a → m ≡ ok a
unfolding lift_decide
lift_decide-ok (ok x) a h = ground arith
lift_decide-ok (err e) a h = absurd (cc)

pass_not_indeterminate : (t : String) → str_eq t "pass" ≡ true → str_eq t "indeterminate" ≡ false
pass_not_indeterminate t h = rw ((eq_iff t "pass").0 h) refl

settled_of_passes :
    {F : Type 0} (ks : List (CriterionCheck F))
    → All (λ k. str_eq k.status "pass" ≡ true) ks
    → any (λ k. str_eq k.status "indeterminate") ks ≡ false
settled_of_passes [] h = refl
settled_of_passes (k ∷ ks) h =
    ground (arith, pass_not_indeterminate k.status h.0, settled_of_passes ks h.1)

run_semantic_total :
    {F : Type 0} (det : DeterministicResult F) (b : Bool)
    (s : DeterministicResult F → SemanticOutput F)
    → (sem : Option (SemanticOutput F)) × (run_semantic b (some s) det ≡ ok sem)
      × ((sem ≡ none) ⊎ (sem ≡ some (s det)))
unfolding run_semantic
run_semantic_total det true s = (some (s det), refl, inr refl)
run_semantic_total det false s = (none, refl, inl refl)

-- A reviewer's answer that lets the node through.
pub record IsApproval {F : Type 0} (i : IntegrityOutput F) : Type 0 where
  pub verdict : i.verdict ≡ IntegrityVerdict.pass
  pub intent : i.intent_preserved ≡ true
  pub graph : i.graph_integrity_preserved ≡ true
  pub no_review : i.required_human_review ≡ false

module _ {F : Type 0} ⦃fl : FloatOps F⦄ (resolve : String → String) (run : Run)
    (semantic_harness : Option (DeterministicResult F → SemanticOutput F))
    (integrity_harness : Option (DeterministicResult F → IntegrityOutput F))
    (det : DeterministicResult F) where
  -- A receipt with the decision of the matrix on the semantic lane's answer.
  record IsRun (r : VerdictReceipt F) : Type 0 where
    semantic : Option (SemanticOutput F)
    d : Verdict × VerificationSignals F × String
    asked : run_semantic (should_run_semantic det) semantic_harness det ≡ ok semantic
    decided : decide det semantic ≡ ok d
    built :
        r
        ≡ build_receipt resolve run det semantic
            (run_integrity integrity_harness det)
            d.0
            d.1
            (combine d.0 (run_integrity integrity_harness det) d.2).0
            (combine d.0 (run_integrity integrity_harness det) d.2).1

  validated-ok : (q r : VerdictReceipt F) → validated resolve run q ≡ ok r → r ≡ q
  unfolding validated
  validated-ok q r h = ground arith

  verify-IsRun :
      (r : VerdictReceipt F)
      → verify resolve run semantic_harness integrity_harness det ≡ ok r
      → IsRun r
  unfolding verify
  verify-IsRun r h =
      let s = bind-ok (run_semantic (should_run_semantic det) semantic_harness det) _ r h in
      let d = bind-ok (lift_decide (decide det s.0)) _ r s.2 in
      record {
        semantic = s.0;
        d = d.0;
        asked = s.1;
        decided = lift_decide-ok _ _ d.1;
        built = validated-ok _ r d.2;
      }

  admitted_parts :
      (sem : Option (SemanticOutput F)) (integrity : Option (IntegrityOutput F)) (cv : Verdict)
      (signals : VerificationSignals F) (v : Verdict) (action : String)
      → receipt_admits (build_receipt resolve run det sem integrity cv signals v action) ≡ true
      → ((s : SemanticOutput F) × (sem ≡ some s))
        × (cv ≡ Verdict.pass)
        × ((i : IntegrityOutput F) × (integrity ≡ some i) × IsApproval i)
  unfolding receipt_admits build_receipt infer_completeness_status
  admitted_parts none integrity cv signals v action h = absurd (ground arith)
  admitted_parts (some s) none cv signals v action h = absurd (ground arith)
  admitted_parts (some s) (some i) cv signals v action h = (
    (s, refl),
    ground arith,
    (
      i,
      refl,
      record {
        verdict = ground arith;
        intent = ground arith;
        graph = ground arith;
        no_review = ground arith;
      },
    ),
  )

  asked_unsettled :
      (s : SemanticOutput F)
      → run_semantic (should_run_semantic det) semantic_harness det ≡ ok (some s)
      → any (λ k. str_eq k.status "indeterminate") det.criteria ≡ true
  unfolding run_semantic should_run_semantic
  asked_unsettled s h = ground arith

  Evidence-JudgedPass :
      (s : SemanticOutput F)
      → any (λ k. str_eq k.status "indeterminate") det.criteria ≡ true
      → Evidence det (some s)
      → JudgedPass det s
  Evidence-JudgedPass s u (inl p) = absurd (cc (settled_of_passes det.criteria p.1, u))
  Evidence-JudgedPass s u (inr (t, e, j)) = subst (JudgedPass det) (ground arith) j

  -- A run's receipt that admits its node vouches for the evidence: every dependency is complete or
  -- provisional, no constraint is violated, no criterion failed, every artifact is present; the
  -- semantic lane ran, where some criterion was unsettled, within its budget, and gave at least one
  -- judgment and none that is not a pass; and the integrity lane ran and approved without asking for
  -- a human. Which criteria the judgments are about is not compared.
  pub verify-admits :
      (r : VerdictReceipt F)
      → verify resolve run semantic_harness integrity_harness det ≡ ok r
      → receipt_admits r ≡ true
      → Clean det
        × ((s : SemanticOutput F) × (r.semantic ≡ some s) × JudgedPass det s)
        × ((i : IntegrityOutput F) × (r.integrity ≡ some i) × IsApproval i)
  unfolding build_receipt
  verify-admits r h a =
      let q = verify-IsRun r h in
      let p =
        admitted_parts q.semantic (run_integrity integrity_harness det) q.d.0 q.d.1 _ _
          (rw q.built at a) in
      let (s, asked) = p.0 in
      let (i, ran, approval) = p.2 in
      let e = (decide-pass_iff det q.semantic).0 (ap verdict_of q.decided ∙ ap some p.1) in
      let unsettled = asked_unsettled s (q.asked ∙ ap ok asked) in
      (
        e.0,
        (
          s,
          ap (λ (x : VerdictReceipt F). x.semantic) q.built ∙ asked,
          Evidence-JudgedPass s unsettled (subst (Evidence det) asked e.1),
        ),
        (i, ap (λ (x : VerdictReceipt F). x.integrity) q.built ∙ ran, approval),
      )

  in_range-InUnit : (x : F) → InUnit x → in_range x ≡ true
  unfolding in_range
  in_range-InUnit x h = rw (h.0, h.1)

  validated-valid : (q : VerdictReceipt F) → scores_valid q ≡ true → validated resolve run q ≡ ok q
  unfolding validated
  validated-valid q h = rw h

  scores_valid-build_receipt :
      (sem : Option (SemanticOutput F)) (i : Option (IntegrityOutput F)) (cv : Verdict)
      (u : VerificationSignals F) (v : Verdict) (action : String)
      → AreInUnit u
      → InUnit (overall_confidence u)
      → scores_valid (build_receipt resolve run det sem i cv u v action) ≡ true
  unfolding scores_valid build_receipt
  scores_valid-build_receipt sem i cv u v action h c = rw (
    in_range-InUnit _ c,
    in_range-InUnit _ h.confidence,
    in_range-InUnit _ h.completeness,
    in_range-InUnit _ h.readiness,
  )

  IsScored-none :
      (s : SemanticOutput F) (sem : Option (SemanticOutput F))
      → IsScored (record { deterministic = det; semantic = some s })
      → (sem ≡ none) ⊎ (sem ≡ some s)
      → IsScored (record { deterministic = det; semantic = sem })
  unfolding judgments
  IsScored-none s sem h (inl e) =
      rw e (record { criteria = h.criteria; constraints = h.constraints; judged = tt })
  IsScored-none s sem h (inr e) = rw e h

  -- With a semantic harness wired, a run gives a receipt: where there is a criterion, each has one
  -- of the three statuses, and every confidence of the evidence, the lane's answer included, lies
  -- between 0 and 1, no exception is raised, whatever the two lanes answer.
  pub verify_total :
      (s : DeterministicResult F → SemanticOutput F)
      → semantic_harness ≡ some s
      → nonempty det.criteria ≡ true
      → All IsStatus det.criteria
      → IsScored (record { deterministic = det; semantic = some (s det) })
      → (r : VerdictReceipt F) × (verify resolve run semantic_harness integrity_harness det ≡ ok r)
  unfolding verify lift_decide
  verify_total s wired n st scored =
      let (sem, asked, shape) = run_semantic_total det (should_run_semantic det) s in
      let (d, decided) = decide_total det sem n st in
      let (u, c) =
        decide-InUnit det sem (IsScored-none (s det) sem scored shape) d.0 d.1 d.2 decided in
      (
        build_receipt resolve run det sem (run_integrity integrity_harness det) d.0 d.1
            (combine d.0 (run_integrity integrity_harness det) d.2).0
            (combine d.0 (run_integrity integrity_harness det) d.2).1,
        rw (wired, asked, decided)
            (validated-valid _ (scores_valid-build_receipt sem _ d.0 d.1 _ _ u c)),
      )
