-- ===== src/Verification/Retry.antt =====
-- scripts/runtime/verification/retry_budget.py: whether a verdict sends the node back to its executor.
pub mod Evidence
pub mod Budget
use gddp_runtime.Prelude.{
  ℕ, zero, suc, ◌+◌, ◌-◌, ◌≤◌, ◌<◌, String, Bool, true, false, ◌&&◌, ◌||◌, not, Option, none, some,
  List, [], ◌∷◌, ◌++◌, map, any, all, keep, All, nonempty, length, mem, if◌then◌else◌, ltb, leb,
  ◌==◌, str_eq, eq_iff, eq_refl, or_else, is_some, Result, ok, err, ◌>>=◌, ◌>>◌, guard, ◌≡◌, ◌≢◌,
  ◌↔◌, ◌⊎◌, inl, inr, refl, sym, ap, subst, ◌∙◌, arith, Bool-cases, Option-cases,
}
use gddp_runtime.Prelude.Text.{codes, is_code}
use gddp_runtime.Prelude.Int.{ℤ, pos, lebℤ}

-- A finding as the receipt's JSON holds it: a dictionary with the keys that are read, or another
-- value by its `str`.
pub data Finding : Type 0 where
  entry : String → List String → Finding
  other : String → Finding

pub record IntegrityJson : Type 0 where
  pub findings : List Finding
  pub reasoning : String

-- A criteria-lane finding: a dictionary with its evidence items by their `str`, or another value.
pub data CriteriaFinding : Type 0 where
  entry : List String → String → CriteriaFinding
  other : CriteriaFinding

pub record JobBudget : Type 0 where
  pub attempt : Option ℤ
  pub max_attempts : Option ℤ

-- `d.get(key, default)`
abbrev pub or_default : Option ℤ → ℤ → ℤ
or_default none d = d
or_default (some z) d = z

min_int : ℤ → ℤ → ℤ
min_int a b = if lebℤ a b then a else b

-- `\w` of a regular expression on text is the language's table of letters and digits.
module _ (is_word : ℕ → Bool) where
  unfoldable pub path_char : ℕ → Bool
  path_char c = is_word c || is_code c b'/'

  -- Whether `[\w/]+\.\w+(?::\d+)?` matches somewhere: a path character, a dot and a word character
  -- in a row, since each run may be cut to one character and the last group is optional.
  unfoldable pub has_file_ref : List ℕ → Bool
  unfolding path_char
  has_file_ref [] = false
  has_file_ref (a ∷ []) = false
  has_file_ref (a ∷ b ∷ []) = false
  has_file_ref (a ∷ b ∷ c ∷ rest) =
      (path_char a && is_code b b'.' && is_word c) || has_file_ref (b ∷ c ∷ rest)

  abbrev pub file_ref : String → Bool
  file_ref text = has_file_ref (codes text)

  unfoldable pub finding_has_evidence : Finding → Bool
  finding_has_evidence (entry summary nodes) = file_ref summary || nonempty nodes
  finding_has_evidence (other text) = file_ref text

  unfoldable pub has_evidence_references : Option IntegrityJson → Bool
  unfolding finding_has_evidence has_file_ref
  has_evidence_references none = false
  has_evidence_references (some i) = any finding_has_evidence i.findings || file_ref i.reasoning

  unfoldable pub criteria_finding_has_evidence : CriteriaFinding → Bool
  criteria_finding_has_evidence (entry evidence reasoning) =
      any file_ref evidence || file_ref reasoning
  criteria_finding_has_evidence other = false

  unfoldable pub has_criteria_evidence : Option (List CriteriaFinding) → Bool
  unfolding criteria_finding_has_evidence has_file_ref
  has_criteria_evidence none = false
  has_criteria_evidence (some findings) = any criteria_finding_has_evidence findings

  unfoldable pub should_retry :
      (verdict : String) (integrity : Option IntegrityJson) (job : JobBudget)
      (retry_budget : Option ℤ) (criteria_findings : Option (List CriteriaFinding))
      → Bool
  unfolding min_int
  should_retry verdict integrity job retry_budget criteria_findings =
      if str_eq verdict "pass"
      then false
      else if not (has_evidence_references integrity || has_criteria_evidence criteria_findings)
      then false
      else if lebℤ (or_default retry_budget (pos 0)) (pos 0)
      then false
      else not (
          lebℤ (min_int (or_default retry_budget (pos 0)) (or_default job.max_attempts (pos 3)))
            (or_default job.attempt (pos 0)))
