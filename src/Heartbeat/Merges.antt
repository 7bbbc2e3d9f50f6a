-- ===== src/Heartbeat/Merges.antt =====
-- scripts/runtime/return_router.py: a merged pull request becomes a result of its job; with
-- write_result of scripts/runtime/results_store.py.
pub mod Routed
use Prim.Native.String.{String}
use Prim.Native.Char.{Char, code}
use Prim.Native.String.{◌++◌ as text_append}
use gddp_runtime.Prelude.{
  ℕ, zero, suc, Bool, true, false, ◌&&◌, ◌||◌, not, Option, none, some, List, [], ◌∷◌, ◌++◌, any,
  nonempty, mem, if◌then◌else◌, str_eq, or_else, Result, ok, err, ◌>>=◌, ◌>>◌, guard,
}
use gddp_runtime.Prelude.Int.{ℤ, pos}
use gddp_runtime.Prelude.Decimal.{show}
use gddp_runtime.Prelude.Text.{codes, is_code, lstrip, strip, empty_text}
use gddp_runtime.Verification.Retry.{IntegrityJson, CriteriaFinding, JobBudget, should_retry}
use gddp_runtime.Heartbeat.Store.{
  Db, JobRow, ResultRow, StoredCheck, IntegritySummary, with_check, find, update, column_is,
}
use gddp_runtime.Heartbeat.Classifier.{letter}
use gddp_runtime.Heartbeat.Sessions.{filled}
use gddp_runtime.Heartbeat.Returns.{
  Return, ReturnHost, findings_of, mark_job_awaiting_review, redispatch_with_findings,
}

-- What is read of the payload.
pub record MergedPr : Type 0 where
  pub repo_name : Option String
  pub number : Option ℕ
  pub body : Option String
  pub merged_at : Option String
  pub html_url : Option String
  pub merge_commit_sha : Option String

-- The text after a word of small letters, under `(?i)`.
unfoldable pub after_word : List ℕ → String → Option String
unfolding letter
after_word [] s = some s
after_word (l ∷ word) String.[] = none
after_word (l ∷ word) (String.◌∷◌ c s) =
    let rest = after_word word s in elim (letter l (code c)) [ true ↦ rest | false ↦ none ]

unfoldable pub after_colon : Option String → Option String
after_colon none = none
after_colon (some String.[]) = none
after_colon (some (String.◌∷◌ c s)) = if is_code (code c) b':' then some s else none

-- `(.+)$`: what is left of the line.
unfoldable pub line_of : String → String
line_of String.[] = String.[]
line_of (String.◌∷◌ c s) =
    let rest = line_of s in
    elim (is_code (code c) 10) [ true ↦ String.[] | false ↦ String.◌∷◌ c rest ]

-- `\s*(.+)$` and the `strip` of its group. The blanks may run over lines; where nothing else follows,
-- the group takes a blank that is not a line's end, and is empty once stripped.
unfoldable pub tag_value : String → Option String
unfolding line_of
tag_value s =
    let rest = lstrip s in
    if not (empty_text rest)
    then some (strip (line_of rest))
    else if any (λ c. not (is_code c 10)) (codes s)
    then some ""
    else none

unfoldable pub tag_here : List ℕ → String → Option String
unfolding after_word after_colon tag_value
tag_here word s = elim (after_colon (after_word word s)) [ some v ↦ tag_value v | none ↦ none ]

-- The first match, at the start of the text or after a line's end.
unfoldable pub tag_from : Bool → List ℕ → String → Option String
unfolding tag_here
tag_from start word String.[] = none
tag_from start word (String.◌∷◌ c s) =
    let later = tag_from (is_code (code c) 10) word s in
    if start then or_else (tag_here word (String.◌∷◌ c s)) later else later

unfoldable pub parse_node_id : Option String → Option String
unfolding tag_from
parse_node_id none = none
parse_node_id (some body) = tag_from true (b'n' ∷ b'o' ∷ b'd' ∷ b'e' ∷ []) body

unfoldable pub parse_job_id : Option String → Option String
unfolding tag_from
parse_job_id none = none
parse_job_id (some body) = tag_from true (b'j' ∷ b'o' ∷ b'b' ∷ []) body

-- `_FALLBACK_ALLOWED_REPOS`
abbrev pub fallback_allowed_repos : List String
fallback_allowed_repos =
    "skchaudr/vault-doctor" ∷ "skchaudr/test-project" ∷ "skchaudr/gddp-runtime" ∷ []

unfoldable pub validate_repo : Option String → List String → Bool
validate_repo none allowed = false
validate_repo (some name) [] = mem name fallback_allowed_repos
validate_repo (some name) (a ∷ allowed) = mem name (a ∷ allowed)

unfoldable pub or_reject : {A : Type 0} → Option A → String → Result String A
or_reject none reason = err reason
or_reject (some a) reason = ok a

-- The job that the pull request names, or the reason to reject it.
unfoldable pub identify : MergedPr → Db → Result String JobRow
unfolding validate_repo or_reject filled
identify pr db = do
  guard (validate_repo pr.repo_name []) "repo_not_allowed"
  node ← or_reject (filled (parse_node_id pr.body)) "missing_node_tag"
  id ← or_reject (filled (parse_job_id pr.body)) "missing_job_tag"
  job ← or_reject (find (λ j. str_eq j.job_id id) db.jobs) "job_not_found"
  guard (column_is pr.repo_name job.repo) "repo_job_mismatch"
  guard (str_eq job.node_id node) "node_job_mismatch"
  ok job

-- `event["event_id"][4:]`
unfoldable pub after_chars : ℕ → String → String
after_chars zero s = s
after_chars (suc n) String.[] = String.[]
after_chars (suc n) (String.◌∷◌ c s) = after_chars n s

-- `write_result`: one row for each result id.
unfoldable pub write_result : ResultRow → Db → Db
write_result row db = record db {
  results =
      if any (λ r. str_eq r.result_id row.result_id) db.results
      then update (λ r. str_eq r.result_id row.result_id) (λ _. row) db.results
      else db.results ++ row ∷ [];
}

-- The status that is returned, with the reason or the result id.
pub data PrReturn : Type 0 where
  rejected : (reason : String) → PrReturn
  needs_review : (result_id : String) → PrReturn
  retried : Return → PrReturn

-- The evaluator, the project's file, and the clock.
pub record MergeHost : Type 0 where
  pub router : ReturnHost
  pub verify_job_return :
      (project_id node_id : String) (merge_commit_sha pr_ref : Option String) (job_id : String)
      (attempt : ℕ)
      → StoredCheck
  pub allowed_repos : (project_id : String) → List String
  pub retry_budget : (project_id : String) → Option ℤ
  pub is_word : ℕ → Bool
  pub now : String

unfoldable pub pr_ref : MergedPr → Option String
pr_ref pr = elim pr.number [ some (suc n) ↦ some (show (suc n)) | _ ↦ pr.html_url ]

module _ (host : MergeHost) (event_id : String) (pr : MergedPr) where
  unfoldable pub verification_of : JobRow → StoredCheck
  unfolding pr_ref
  verification_of job =
      host.verify_job_return job.project_id job.node_id pr.merge_commit_sha (pr_ref pr) job.job_id
        job.attempt

  abbrev pub pr_result_id : String
  pr_result_id = text_append "res_" (after_chars 4 event_id)

  abbrev received_at : Option String → String
  received_at none = host.now
  received_at (some t) = t

  unfoldable pub pr_result : JobRow → ResultRow
  unfolding verification_of filled
  pr_result job = record {
    result_id = pr_result_id;
    job_id = job.job_id;
    executor = job.executor;
    received_at = received_at (filled pr.merged_at);
    outcome = "success";
    status = "needs_review";
    patch_path = none;
    summary_path = none;
    logs_path = none;
    acceptance_check = with_check (verification_of job);
  }

  -- The verdict and the findings count only where the evaluator ended well.
  unfoldable pub sends_back : JobRow → StoredCheck → Bool
  sends_back job v =
      let evaluated = str_eq v.verification_status "ok" in
      let integrity : Option IntegrityJson =
        if evaluated then elim v.integrity [ some i ↦ some i.body | none ↦ none ] else none in
      should_retry host.is_word (if evaluated then v.verdict else "") integrity
        (record { attempt = some (pos job.attempt); max_attempts = some (pos job.max_attempts) })
        (host.retry_budget job.project_id) (if evaluated then some v.criteria_findings else none)

  unfoldable pub route_result : JobRow → Db → Db × PrReturn
  unfolding sends_back verification_of
  route_result job db =
      let allowed = host.allowed_repos job.project_id in
      let v = verification_of job in
      let again =
        redispatch_with_findings host.router job job.expected_base_commit_sha (findings_of v none)
          db in
      if nonempty allowed && not (validate_repo pr.repo_name allowed)
      then (db, rejected "repo_not_allowed_by_project")
      else if sends_back job v
      then (again.0, retried again.1)
      else (mark_job_awaiting_review job.job_id db, needs_review pr_result_id)

  unfoldable pub handle_identified : Result String JobRow → Db → Db × PrReturn
  unfolding route_result
  handle_identified (err reason) db = (db, rejected reason)
  handle_identified (ok job) db = route_result job (write_result (pr_result job) db)

  unfoldable pub handle_merged_pr : Db → Db × PrReturn
  unfolding handle_identified
  handle_merged_pr db = handle_identified (identify pr db) db
