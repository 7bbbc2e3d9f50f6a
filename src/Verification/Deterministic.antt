-- ===== src/Verification/Deterministic.antt =====
-- scripts/runtime/verification/deterministic: the lane without a model, from what its probes found.
pub mod Evidence
use Prim.Native.String.{◌++◌ as text_append}
use gddp_runtime.Prelude.{
  ℕ, zero, suc, ◌+◌, ◌-◌, ◌≤◌, ◌<◌, String, Bool, true, false, ◌&&◌, ◌||◌, not, Option, none, some,
  List, [], ◌∷◌, ◌++◌, map, any, all, keep, All, nonempty, length, mem, if◌then◌else◌, ltb, leb,
  ◌==◌, str_eq, eq_iff, eq_refl, or_else, is_some, Result, ok, err, ◌>>=◌, ◌>>◌, guard, ◌≡◌, ◌≢◌,
  ◌↔◌, ◌⊎◌, inl, inr, refl, sym, ap, subst, ◌∙◌, arith, Bool-cases, Option-cases,
}
use gddp_runtime.Prelude.Text.{rstrip, empty_text}
use gddp_runtime.Heartbeat.Graph.{NodeRow, find_row, status_of}
use gddp_runtime.Verification.Schemas.{
  CriterionCheck, ConstraintCheck, CriterionMismatch, MissingEvidence, HumanReviewQuestion,
  DeterministicResult, SubjectDiff,
}

-- A Python dictionary that a comprehension builds: a key keeps its first place and takes its last
-- value.
unfoldable pub put {ℓ} : {V : Type ℓ} → String → V → List (String × V) → List (String × V)
put k v [] = (k, v) ∷ []
put k v ((j, w) ∷ m) =
    let rest = put k v m in elim (str_eq j k) [ true ↦ (j, v) ∷ m | false ↦ (j, w) ∷ rest ]

unfoldable pub dict_from {ℓ} :
    {V : Type ℓ} → (String → V) → List String → List (String × V) → List (String × V)
unfolding put
dict_from f [] m = m
dict_from f (k ∷ ks) m = dict_from f ks (put k (f k) m)

-- deps.py: `nodes.get(d, {}).get("status", "unknown")`
abbrev pub or_unknown : Option String → String
or_unknown none = "unknown"
or_unknown (some s) = s

unfoldable pub dependency_status : List NodeRow → List String → List (String × String)
unfolding dict_from find_row
dependency_status nodes depends_on =
    dict_from (λ d. or_unknown (status_of (find_row d nodes))) depends_on []

-- The three places that are searched, and what is found there: whether an artifact is a file, and
-- the lines of executor-receipt.md if it can be read.
pub data Spot : Type 0 where
  repo_root dot_gddp docs : Spot

pub record Checkout : Type 0 where
  pub is_file : Spot → String → Bool
  pub receipt_lines : Spot → Option (List String)

abbrev pub spots : List Spot
spots = repo_root ∷ dot_gddp ∷ docs ∷ []

heading_among : Option (List String) → String → Bool
unfolding rstrip
heading_among none name = false
heading_among (some lines) name = any (λ l. str_eq (rstrip l) (text_append "## " name)) lines

unfoldable pub has_artifact_heading : Checkout → Spot → String → Bool
unfolding heading_among
has_artifact_heading c s name = heading_among (c.receipt_lines s) name

unfoldable pub artifact_present : Checkout → String → Bool
artifact_present c a =
    if str_eq a "merged_pr"
    then false
    else any (λ s. c.is_file s a) spots || any (λ s. has_artifact_heading c s a) spots

unfoldable pub check_artifacts : Checkout → List String → List (String × Bool)
unfolding dict_from artifact_present
check_artifacts c required = dict_from (artifact_present c) required []

first_or_empty : List String → String
first_or_empty [] = ""
first_or_empty (e ∷ es) = e

-- `a or b` on texts
or_text : String → String → String
or_text a b = if empty_text a then b else a

module _ {F : Type 0} where
  to_mismatch : CriterionCheck F → CriterionMismatch
  to_mismatch k = record { criterion_id = k.id; kind = k.mismatch_kind; detail = k.mismatch_detail }

  to_missing : CriterionCheck F → MissingEvidence
  unfolding or_text first_or_empty
  to_missing k = record {
    criterion_id = k.id;
    what_is_missing = or_text k.mismatch_detail k.reasoning;
    what_exists = first_or_empty k.evidence;
  }

  to_question : CriterionCheck F → HumanReviewQuestion
  to_question k = record { criterion_id = k.id; question = k.human_question }

  -- `assemble`, from the checks that the probes made of the criteria and the constraints.
  unfoldable pub assemble :
      (criteria : List (CriterionCheck F)) (constraints : List (ConstraintCheck F))
      (nodes : List NodeRow) (depends_on required_artifacts : List String) (repo : Checkout)
      (subject_diff : Option SubjectDiff)
      → DeterministicResult F
  unfolding to_mismatch to_missing to_question
  assemble criteria constraints nodes depends_on required_artifacts repo subject_diff = record {
    criteria = criteria;
    constraints = constraints;
    artifacts_present = check_artifacts repo required_artifacts;
    deps_status = dependency_status nodes depends_on;
    criteria_mismatches =
        map to_mismatch
          (keep (λ k. not (empty_text k.mismatch_kind) && not (str_eq k.status "pass")) criteria);
    missing_evidence = map to_missing (keep (λ k. k.needs_evidence) criteria);
    human_review_questions =
        map to_question (keep (λ k. not (empty_text k.human_question)) criteria);
    subject_diff = subject_diff;
  }

-- What `git rev-parse HEAD` and `git diff --name-status` gave: no answer, an error, or the tip and
-- the (status, path) lines.
pub data GitDiff : Type 0 where
  no_answer failed : String → GitDiff
  listed : String → List (String × String) → GitDiff

take : ℕ → List (String × String) → List (String × String)
take zero xs = []
take (suc n) [] = []
take (suc n) (x ∷ xs) = x ∷ take n xs

-- `_SUBJECT_DIFF_CAP`
abbrev pub subject_diff_cap : ℕ
subject_diff_cap = 50

unfoldable pub measure_subject_diff : String → GitDiff → SubjectDiff
unfolding take
measure_subject_diff base (no_answer error) = SubjectDiff.unavailable base error
measure_subject_diff base (failed error) = SubjectDiff.unavailable base error
measure_subject_diff base (listed tip files) =
    SubjectDiff.measured base tip (take subject_diff_cap files)
      (ltb subject_diff_cap (length files)) (length files)
