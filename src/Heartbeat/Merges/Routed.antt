-- ===== src/Heartbeat/Merges/Routed.antt =====
-- Where a merged pull request leads.
use gddp_runtime.Prelude.{
  ok-injective, String, true, false, Option, none, some, [], nonempty, str_eq, or_else, ok, ◌≡◌,
  ◌⊎◌, refl, ap,
}
use gddp_runtime.Heartbeat.Store.{Db, JobRow, find}
use gddp_runtime.Heartbeat.Sessions.{filled, recorded_base_commit_sha, job_base}
use gddp_runtime.Heartbeat.Returns.{mark_job_awaiting_review}
use gddp_runtime.Heartbeat.Returns.Settling.{IsRedispatched}
use gddp_runtime.Heartbeat.Merges.{
  MergedPr, MergeHost, PrReturn, rejected, needs_review, retried, parse_node_id, parse_job_id,
  validate_repo, or_reject, write_result, pr_result, verification_of, sends_back,
}

-- The job that a pull request names: both tags, the repository and the node are those of the row.
pub record Identified (pr : MergedPr) (db : Db) (job : JobRow) : Type 0 where
  pub allowed : validate_repo pr.repo_name [] ≡ true
  pub node : filled (parse_node_id pr.body) ≡ some job.node_id
  pub tag : filled (parse_job_id pr.body) ≡ some job.job_id
  pub found : find (λ j. str_eq j.job_id job.job_id) db.jobs ≡ some job
  pub repo : pr.repo_name ≡ some job.repo

module _ (host : MergeHost) (event_id : String) (pr : MergedPr) where
  abbrev pub stored : JobRow → Db → Db
  stored job db = write_result (pr_result host event_id pr job) db

  unfoldable pub IsRouted : Db → Db × PrReturn → Type 0
  IsRouted db (db', rejected reason) =
      ((db' ≡ db) × (((job : JobRow) × Identified pr db job) → ⊥))
      ⊎ ((job : JobRow) × Identified pr db job
          × (db' ≡ stored job db)
          × (nonempty (host.allowed_repos job.project_id) ≡ true)
          × (validate_repo pr.repo_name (host.allowed_repos job.project_id) ≡ false))
  IsRouted db (db', needs_review id) =
      (job : JobRow) × Identified pr db job
      × (db' ≡ mark_job_awaiting_review job.job_id (stored job db))
      × (sends_back host event_id pr job (verification_of host event_id pr job) ≡ false)
  IsRouted db (db', retried r) =
      (job : JobRow) × Identified pr db job
      × (sends_back host event_id pr job (verification_of host event_id pr job) ≡ true)
      × IsRedispatched host.router (λ j. j ≡ job) job.job_id (stored job db) (db', r)

or_reject-ok :
    {A : Type 0} (o : Option A) (reason : String) (a : A) → or_reject o reason ≡ ok a → o ≡ some a
unfolding or_reject
or_reject-ok none reason a h = absurd (cc)
or_reject-ok (some x) reason a h = ap some (ok-injective x a h)

same_base :
    (db : Db) (job : JobRow)
    → find (λ j. str_eq j.job_id job.job_id) db.jobs ≡ some job
    → or_else (filled job.expected_base_commit_sha) (recorded_base_commit_sha db job.job_id)
      ≡ recorded_base_commit_sha db job.job_id
unfolding recorded_base_commit_sha job_base
same_base db job f = rw f (twice (filled job.expected_base_commit_sha) _)
  where
    twice : (x y : Option String) → or_else x (or_else x y) ≡ or_else x y
    twice none y = refl
    twice (some x) y = refl
