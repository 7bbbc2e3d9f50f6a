-- ===== src/Verification/Matrix.antt =====
-- scripts/runtime/verification/decision_engine.py: the twelve rows, `MATRIX` and `decide`.
pub mod Reference
pub mod Pass
pub mod Bounds
use gddp_runtime.Prelude.{
  ℕ, String, Bool, true, false, ◌&&◌, not, Option, List, [], ◌∷◌, keep, Result, ok, err,
}
use gddp_runtime.Prelude.Floats.{FloatOps}
use gddp_runtime.Verification.Schemas.{Verdict, DeterministicResult, SemanticOutput}
use gddp_runtime.Verification.Context.{
  DecisionContext, deps_incomplete, constraint_violated, any_fail, all_pass, indeterminate_only,
  artifacts_missing, artifacts_present, judgments, is_judged_fail, is_judged_indeterminate,
  any_judged_fail, all_judged_pass, any_judgment_indeterminate, budget_exhausted, judgments_empty,
}
use gddp_runtime.Verification.Signals.{
  VerificationSignals, signals_blocked, signals_constraint_violation, signals_fail_criteria,
  signals_all_criteria, signals_semantic_blend,
}

-- `RuntimeError("decision matrix exhausted without a match")`.
pub data DecideError : Type 0 where
  matrix_exhausted : DecideError

pub record MatrixRow (F : Type 0) : Type 0 where
  pub number : ℕ
  pub matches : DecisionContext F → Bool
  pub verdict : Verdict
  pub signals : DecisionContext F → VerificationSignals F
  pub required_next_action : String
  pub reasoning : String

module _ {F : Type 0} where
  abbrev pub row1 : DecisionContext F → Bool
  row1 c = deps_incomplete c

  abbrev pub row2 : DecisionContext F → Bool
  row2 c = not (deps_incomplete c) && constraint_violated c

  abbrev pub row3 : DecisionContext F → Bool
  row3 c = not (deps_incomplete c) && not (constraint_violated c) && any_fail c

  abbrev pub row4 : DecisionContext F → Bool
  row4 c =
      not (deps_incomplete c)
      && not (constraint_violated c)
      && not (any_fail c)
      && indeterminate_only c
      && any_judged_fail c

  abbrev pub row5 : DecisionContext F → Bool
  row5 c =
      not (deps_incomplete c)
      && not (constraint_violated c)
      && not (any_fail c)
      && all_pass c
      && artifacts_missing c

  abbrev pub row6 : DecisionContext F → Bool
  row6 c =
      not (deps_incomplete c)
      && not (constraint_violated c)
      && not (any_fail c)
      && indeterminate_only c
      && all_judged_pass c
      && artifacts_missing c

  abbrev pub row7 : DecisionContext F → Bool
  row7 c =
      not (deps_incomplete c)
      && not (constraint_violated c)
      && not (any_fail c)
      && indeterminate_only c
      && any_judgment_indeterminate c
      && artifacts_missing c
      && not (budget_exhausted c)

  abbrev pub row8 : DecisionContext F → Bool
  row8 c =
      not (deps_incomplete c)
      && not (constraint_violated c)
      && not (any_fail c)
      && indeterminate_only c
      && budget_exhausted c

  abbrev pub row9 : DecisionContext F → Bool
  row9 c =
      not (deps_incomplete c)
      && not (constraint_violated c)
      && not (any_fail c)
      && indeterminate_only c
      && judgments_empty c

  abbrev pub row10 : DecisionContext F → Bool
  row10 c =
      not (deps_incomplete c)
      && not (constraint_violated c)
      && not (any_fail c)
      && indeterminate_only c
      && any_judgment_indeterminate c
      && artifacts_present c

  abbrev pub row11 : DecisionContext F → Bool
  row11 c =
      not (deps_incomplete c)
      && not (constraint_violated c)
      && not (any_fail c)
      && indeterminate_only c
      && all_judged_pass c
      && artifacts_present c

  abbrev pub row12 : DecisionContext F → Bool
  row12 c =
      not (deps_incomplete c)
      && not (constraint_violated c)
      && not (any_fail c)
      && all_pass c
      && artifacts_present c

module _ {F : Type 0} ⦃fl : FloatOps F⦄ where
  unfoldable pub matrix : List (MatrixRow F)
  matrix =
      record {
        number = 1;
        matches = row1;
        verdict = Verdict.blocked;
        signals = signals_blocked;
        required_next_action = "Complete dependency nodes before re-verification.";
        reasoning = "Matrix row 1: dependencies incomplete.";
      }
      ∷ record {
        number = 2;
        matches = row2;
        verdict = Verdict.out_of_scope_change_detected;
        signals = signals_constraint_violation;
        required_next_action = "Revert out-of-scope changes and re-submit for verification.";
        reasoning = "Matrix row 2: constraint violation detected.";
      }
      ∷ record {
        number = 3;
        matches = row3;
        verdict = Verdict.fail;
        signals = signals_fail_criteria;
        required_next_action = "Fix failing acceptance criteria and re-submit.";
        reasoning = "Matrix row 3: deterministic hard fail.";
      }
      ∷ record {
        number = 4;
        matches = row4;
        verdict = Verdict.fail;
        signals = λ c. signals_semantic_blend c (keep is_judged_fail (judgments c)) false;
        required_next_action = "Address semantic failures and re-submit.";
        reasoning = "Matrix row 4: semantic judged_fail on indeterminate criteria.";
      }
      ∷ record {
        number = 5;
        matches = row5;
        verdict = Verdict.needs_more_evidence;
        signals = signals_all_criteria;
        required_next_action = "Provide missing required artifacts and re-submit.";
        reasoning = "Matrix row 5: all criteria pass but required artifacts missing.";
      }
      ∷ record {
        number = 6;
        matches = row6;
        verdict = Verdict.needs_more_evidence;
        signals = λ c. signals_semantic_blend c (judgments c) false;
        required_next_action = "Provide missing required artifacts and re-submit.";
        reasoning = "Matrix row 6: semantic pass but required artifacts missing.";
      }
      ∷ record {
        number = 7;
        matches = row7;
        verdict = Verdict.needs_more_evidence;
        signals = λ c. signals_semantic_blend c (keep is_judged_indeterminate (judgments c)) false;
        required_next_action =
            "Provide missing required artifacts and re-run semantic investigation.";
        reasoning = "Matrix row 7: semantic indeterminate and required artifacts missing.";
      }
      ∷ record {
        number = 8;
        matches = row8;
        verdict = Verdict.needs_more_evidence;
        signals = λ c. signals_semantic_blend c (judgments c) true;
        required_next_action = "Re-run semantic investigation with sufficient budget.";
        reasoning = "Matrix row 8: semantic budget exhausted.";
      }
      ∷ record {
        number = 9;
        matches = row9;
        verdict = Verdict.needs_more_evidence;
        signals = λ c. signals_semantic_blend c [] false;
        required_next_action = "Re-run semantic investigation to produce judgments.";
        reasoning = "Matrix row 9: semantic produced no judgments.";
      }
      ∷ record {
        number = 10;
        matches = row10;
        verdict = Verdict.needs_human_review;
        signals = λ c. signals_semantic_blend c (keep is_judged_indeterminate (judgments c)) false;
        required_next_action = "Human review required for unresolved semantic judgments.";
        reasoning = "Matrix row 10: semantic indeterminate with artifacts present.";
      }
      ∷ record {
        number = 11;
        matches = row11;
        verdict = Verdict.pass;
        signals = λ c. signals_semantic_blend c (judgments c) false;
        required_next_action = "Proceed to accept_node (open evidence PR).";
        reasoning = "Matrix row 11: semantic pass on indeterminate criteria.";
      }
      ∷ record {
        number = 12;
        matches = row12;
        verdict = Verdict.pass;
        signals = signals_all_criteria;
        required_next_action = "Proceed to accept_node (open evidence PR).";
        reasoning = "Matrix row 12: deterministic clean pass.";
      }
      ∷ []

module _ {F : Type 0} where
  unfoldable pub first_match :
      List (MatrixRow F)
      → DecisionContext F
      → Result DecideError (Verdict × VerificationSignals F × String)
  first_match [] c = err matrix_exhausted
  first_match (r ∷ rs) c =
      let rest = first_match rs c in
      elim (r.matches c) [
        | true ↦ ok (r.verdict, r.signals c, r.required_next_action)
        | false ↦ rest
      ]

module _ {F : Type 0} ⦃fl : FloatOps F⦄ where
  unfoldable pub decide :
      DeterministicResult F
      → Option (SemanticOutput F)
      → Result DecideError (Verdict × VerificationSignals F × String)
  unfolding matrix first_match
  decide deterministic semantic =
      first_match matrix (record { deterministic = deterministic; semantic = semantic })
