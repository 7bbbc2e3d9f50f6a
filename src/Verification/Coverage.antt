-- ===== src/Verification/Coverage.antt =====
-- scripts/runtime/verification/orchestrator.py: which of the offered context each lane read.
pub mod Sorting
pub mod Rate
use Prim.Native.Nat.{Ordering}
use Prim.Native.String.{compare as compare_text}
use text.Mathlib.Text.{starts_with}
use gddp_runtime.Prelude.{
  ℕ, zero, suc, ◌+◌, ◌-◌, ◌≤◌, ◌<◌, String, Bool, true, false, ◌&&◌, ◌||◌, not, Option, none, some,
  List, [], ◌∷◌, ◌++◌, map, any, all, keep, All, nonempty, length, mem, if◌then◌else◌, ltb, leb,
  ◌==◌, str_eq, eq_iff, eq_refl, or_else, is_some, min, max, Result, ok, err, ◌>>=◌, ◌>>◌, guard,
  ◌≡◌, ◌≢◌, ◌↔◌, ◌⊎◌, inl, inr, refl, sym, ap, subst, ◌∙◌, arith, Bool-cases, Option-cases,
}
use gddp_runtime.Prelude.Text.{empty_text}
use gddp_runtime.Verification.Schemas.{ToolEntry, SemanticOutput, IntegrityOutput}
use gddp_runtime.Verification.Receipt.{Rating, LaneCoverage, ContextCoverage}

-- Sets of paths, as lists without repetition.
abbrev add_path : String → List String → List String
add_path p ps = if mem p ps then ps else p ∷ ps

unfoldable pub to_set : List String → List String
to_set [] = []
to_set (p ∷ ps) = add_path p (to_set ps)

-- `xs & ys` and `xs - ys`
abbrev pub both : List String → List String → List String
both xs ys = keep (λ x. mem x ys) xs

abbrev pub minus : List String → List String → List String
minus xs ys = keep (λ x. not (mem x ys)) xs

unfoldable pub insert_path : String → List String → List String
insert_path p [] = p ∷ []
insert_path p (q ∷ qs) =
    let rest = insert_path p qs in
    elim (compare_text p q) [ Ordering.gt ↦ q ∷ rest | _ ↦ p ∷ q ∷ qs ]

unfoldable pub sorted : List String → List String
unfolding insert_path
sorted [] = []
sorted (p ∷ ps) = insert_path p (sorted ps)

-- `_COVERAGE_SEVERITY` and `_sev_to_rating`
unfoldable pub coverage_severity : Rating → ℕ
coverage_severity Rating.none_rating = 0
coverage_severity Rating.low = 1
coverage_severity Rating.medium = 2
coverage_severity Rating.high = 3

unfoldable pub sev_to_rating : ℕ → Rating
sev_to_rating n =
    if n == 0
    then Rating.none_rating
    else if n == 1
    then Rating.low
    else if n == 2
    then Rating.medium
    else if n == 3
    then Rating.high
    else Rating.none_rating

unfoldable pub rating_of : (offered docs neighbors neighbors_offered : ℕ) → Rating
rating_of offered docs neighbors neighbors_offered =
    if offered == 0
    then Rating.none_rating
    else if docs == 0
    then Rating.low
    else if neighbors == 0 && ltb 0 neighbors_offered
    then Rating.medium
    else Rating.high

-- `_rate_lane`, on the offered paths as sets.
unfoldable pub rate_lane : (accessed all_offered docs neighbors : List String) → LaneCoverage
unfolding rating_of sorted
rate_lane accessed all_offered docs neighbors =
    let accessed_offered = both all_offered accessed in
    let not_observed = minus all_offered accessed in
    record {
      rating =
          rating_of (length accessed_offered) (length (both docs accessed))
            (length (both neighbors accessed)) (length neighbors);
      offered = length all_offered;
      content_accessed = length accessed_offered;
      not_observed = length not_observed;
      accessed_paths = sorted accessed_offered;
      not_observed_paths = sorted not_observed;
    }

abbrev pub is_named : Option String → String → Bool
is_named none name = false
is_named (some t) name = str_eq t name

truthy : Option Bool → Bool
truthy none = false
truthy (some b) = b

-- `ok is not False`
not_refused : Option Bool → Bool
not_refused none = true
not_refused (some b) = b

-- `_tool_results`: the outcome of a call, by its last end event.
outcome_at : String → Option String → Bool → Option Bool
outcome_at id none flag = none
outcome_at id (some i) flag = if str_eq i id then some flag else none

unfoldable pub tool_result : List ToolEntry → String → Option Bool
unfolding truthy outcome_at
tool_result [] id = none
tool_result (e ∷ es) id = or_else (tool_result es id) (
    if is_named e.event "tool_execution_end"
    then outcome_at id e.tool_call_id (truthy e.ok_flag)
    else none)

access_outcome : ToolEntry → List ToolEntry → Option String → Bool
access_outcome e trace none = not_refused e.ok_flag
access_outcome e trace (some id) = truthy (tool_result trace id)

unfoldable pub successful_content_access : List ToolEntry → ToolEntry → Bool
unfolding access_outcome truthy not_refused tool_result
successful_content_access trace e =
    (is_named e.tool "read" || is_named e.tool "grep")
    && not e.was_blocked
    && access_outcome e trace e.tool_call_id

path_list : Option String → List String
path_list none = []
path_list (some p) = if empty_text p then [] else p ∷ []

unfoldable pub overall_rating : Option LaneCoverage → LaneCoverage → Rating
unfolding sev_to_rating coverage_severity
overall_rating none i = i.rating
overall_rating (some s) i =
    sev_to_rating (min (coverage_severity s.rating) (coverage_severity i.rating))

-- `resolve` makes the text of a path absolute, relative ones from the checkout.
module _ (resolve : String → String) where
  paths_of : List ToolEntry → List ToolEntry → List String
  paths_of trace [] = []
  paths_of trace (e ∷ es) =
      (if successful_content_access trace e then map resolve (path_list e.path) else [])
      ++ paths_of trace es

  unfoldable pub extract_accessed_paths : Option (List ToolEntry) → List String
  unfolding paths_of successful_content_access path_list
  extract_accessed_paths none = []
  extract_accessed_paths (some trace) = paths_of trace trace

  -- `resolve` of the offered paths, that do not name the checkout.
  is_doc : String → Bool
  is_doc key = str_eq key "readme" || str_eq key "project_brief"

  is_neighbor : String → Bool
  is_neighbor key = str_eq key "foundational_node" || starts_with key "neighbor:"

  available : (String × String) → Bool
  available e = not (starts_with e.1 "UNAVAILABLE")

  unfoldable pub offered_docs : List (String × String) → List String
  unfolding is_doc available to_set
  offered_docs canonical =
      to_set (
        map (λ (e : String × String). resolve e.1)
          (keep (λ e. available e && is_doc e.0) canonical))

  unfoldable pub offered_neighbors : List (String × String) → List String
  unfolding is_doc is_neighbor available to_set
  offered_neighbors canonical = to_set (
      map (λ (e : String × String). resolve e.1)
        (keep (λ e. available e && not (is_doc e.0) && is_neighbor e.0) canonical))

  module _ {F : Type 0} where
    semantic_paths : SemanticOutput F → List String
    semantic_paths s = extract_accessed_paths s.budget_trace

    integrity_paths : Option (IntegrityOutput F) → List String
    integrity_paths none = []
    integrity_paths (some i) = extract_accessed_paths i.tool_trace

    semantic_lane :
        Option (SemanticOutput F) → List String → List String → List String → Option LaneCoverage
    semantic_lane none offered docs neighbors = none
    semantic_lane (some s) offered docs neighbors =
        some (rate_lane (semantic_paths s) offered docs neighbors)

    unfoldable pub compute_context_coverage :
        List (String × String)
        → Option (SemanticOutput F)
        → Option (IntegrityOutput F)
        → Option ContextCoverage
    unfolding semantic_paths integrity_paths semantic_lane overall_rating rate_lane sev_to_rating
        coverage_severity extract_accessed_paths
    compute_context_coverage canonical semantic integrity =
        let docs = offered_docs canonical in
        let neighbors = offered_neighbors canonical in
        let offered = to_set (docs ++ neighbors) in
        if not (nonempty offered)
        then none
        else let s = semantic_lane semantic offered docs neighbors in
          let i = rate_lane (integrity_paths integrity) offered docs neighbors in
          some (record { criteria = s; integrity = i; overall = overall_rating s i })
