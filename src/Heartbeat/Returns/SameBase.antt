-- ===== src/Heartbeat/Returns/SameBase.antt =====
-- A retry of a reviewed job builds on the recorded base and leaves no dispatch behind.
use gddp_runtime.Prelude.{
  String, Bool, true, false, ◌&&◌, Option, none, some, if◌then◌else◌, str_eq, eq_iff, ◌≡◌, refl,
  sym, ap, subst, ◌∙◌, arith,
}
use gddp_runtime.Prelude.Text.{strip}
use gddp_runtime.Heartbeat.Store.{
  Db, JobRow, ResultRow, StoredCheck, AcceptanceCell, nothing, not_json, not_an_object, with_check,
  find,
}
use gddp_runtime.Heartbeat.Store.Rows.{find-some}
use gddp_runtime.Heartbeat.Sessions.{filled, recorded_base_commit_sha}
use gddp_runtime.Heartbeat.Returns.{
  Return, retry_rejected, not_attempted, attempt_failed, dispatch_superseded, redispatched, raised,
  ReturnHost, findings_of, redispatch_with_findings, retry_cell, retry_found, retry_reviewed_job,
  latest_result, cell_of,
}
use gddp_runtime.Heartbeat.Returns.Settling.{IsRedispatched}
use gddp_runtime.Heartbeat.Returns.Redispatch.{redispatch_with_findings-IsRedispatched}

-- The job that a human sends back: it awaits review, and its base is recorded.
abbrev pub Reviewed : Db → JobRow → Type 0
Reviewed db j =
    (j.status ≡ "awaiting_review")
    × (j.queue_state ≡ "awaiting_review")
    × ((b : String) × (recorded_base_commit_sha db j.job_id ≡ some b))

-- A reason is given, the job is there and awaits review, its newest result holds a verification, and
-- its base is recorded.
pub record IsReviewed (human_reason : String) (db : Db) (id : String) : Type 0 where
  pub reason : str_eq (strip human_reason) "" ≡ false
  pub job : JobRow
  pub found : find (λ j. str_eq j.job_id id) db.jobs ≡ some job
  pub status : job.status ≡ "awaiting_review"
  pub queue_state : job.queue_state ≡ "awaiting_review"
  pub row : ResultRow
  pub newest : latest_result id db ≡ some row
  pub check : StoredCheck
  pub stored : row.acceptance_check ≡ with_check check
  pub base : String
  pub recorded : recorded_base_commit_sha db id ≡ some base
  pub filled_base : filled (some base) ≡ some base

-- What a rejected result leads to. A call that rejects or raises changes nothing, and one of the
-- conditions of a retry is not met; any other is a redispatch.
unfoldable pub IsRetried : ReturnHost → (human_reason id : String) → Db → Db × Return → Type 0
IsRetried host human id db (db', retry_rejected reason) = (db' ≡ db) × (IsReviewed human db id → ⊥)
IsRetried host human id db (db', raised) = (db' ≡ db) × (IsReviewed human db id → ⊥)
IsRetried host human id db (db', not_attempted error) =
    IsRedispatched host (Reviewed db) id db (db', not_attempted error)
IsRetried host human id db (db', attempt_failed session error) =
    IsRedispatched host (Reviewed db) id db (db', attempt_failed session error)
IsRetried host human id db (db', dispatch_superseded session) =
    IsRedispatched host (Reviewed db) id db (db', dispatch_superseded session)
IsRetried host human id db (db', redispatched session url) =
    IsRedispatched host (Reviewed db) id db (db', redispatched session url)

redispatched-IsRetried :
    (host : ReturnHost) (human id : String) (db : Db) (r : Db × Return)
    → IsRedispatched host (Reviewed db) id db r
    → IsRetried host human id db r
unfolding IsRetried IsRedispatched
redispatched-IsRetried host human id db (d, retry_rejected reason) h = absurd h
redispatched-IsRetried host human id db (d, raised) h = absurd h
redispatched-IsRetried host human id db (d, not_attempted error) h = h
redispatched-IsRetried host human id db (d, attempt_failed session error) h = h
redispatched-IsRetried host human id db (d, dispatch_superseded session) h = h
redispatched-IsRetried host human id db (d, redispatched session url) h = h

filled_again : (o : Option String) (b : String) → filled o ≡ some b → filled (some b) ≡ some b
unfolding filled
filled_again none b h = absurd (cc)
filled_again (some t) b h = ground (arith, h)

filled_is : (o : Option String) (b : String) → filled o ≡ some b → o ≡ some b
unfolding filled
filled_is none b h = absurd (cc)
filled_is (some t) b h = ground (arith, h)

module _ (host : ReturnHost) (human : String) (db : Db) (job : JobRow)
    (found : find (λ j. str_eq j.job_id job.job_id) db.jobs ≡ some job)
    (reviewed : job.status ≡ "awaiting_review") (queued : job.queue_state ≡ "awaiting_review") where
  cell_stored :
      (cell : Option AcceptanceCell)
      → cell_of host (latest_result job.job_id db) ≡ cell
      → (p : IsReviewed human db job.job_id) → cell ≡ some (with_check p.check)
  cell_stored cell e p = sym e ∙ ap (cell_of host) p.newest ∙ ap some p.stored

  with_base :
      (next : String → Db × Return)
      → ((b : String)
          → recorded_base_commit_sha db job.job_id ≡ some b
          → filled (some b) ≡ some b
          → IsRetried host human job.job_id db (next b))
      → (o : Option String) → filled (recorded_base_commit_sha db job.job_id) ≡ o
      → IsRetried host human job.job_id db (elim o as (λ _. Db × Return) [
        | none ↦ (db, retry_rejected "base_commit_missing")
        | some base ↦ next base
      ])
  with_base next k none e =
      unfold IsRetried in
      (refl, λ p. let q = sym p.filled_base ∙ ap filled (sym p.recorded) ∙ e in absurd (cc))
  with_base next k (some b) e =
      k b (filled_is (recorded_base_commit_sha db job.job_id) b e)
        (filled_again (recorded_base_commit_sha db job.job_id) b e)

  retry_cell-IsRetried :
      (reason : String) (cell : Option AcceptanceCell)
      → cell_of host (latest_result job.job_id db) ≡ cell
      → IsRetried host human job.job_id db (retry_cell host job reason cell db)
  unfolding retry_cell
  retry_cell-IsRetried reason none e =
      unfold IsRetried in (refl, λ p. let q = cell_stored none e p in absurd (cc))
  retry_cell-IsRetried reason (some nothing) e =
      unfold IsRetried in (refl, λ p. let q = cell_stored (some nothing) e p in absurd (cc))
  retry_cell-IsRetried reason (some not_json) e =
      unfold IsRetried in (refl, λ p. let q = cell_stored (some not_json) e p in absurd (cc))
  retry_cell-IsRetried reason (some not_an_object) e =
      with_base (λ b. (db, raised))
        (λ b r f.
          unfold IsRetried in
          (refl, λ p. let q = cell_stored (some not_an_object) e p in absurd (cc)))
        _ refl
  retry_cell-IsRetried reason (some (with_check v)) e =
      with_base (λ b. redispatch_with_findings host job (some b) (findings_of v (some reason)) db)
        (λ b r f. redispatched-IsRetried host human job.job_id db _ (
          redispatch_with_findings-IsRedispatched host (Reviewed db) db job found
            (reviewed, queued, (b, r)) (some b) (findings_of v (some reason)) (rw (f, r) refl)))
        _ refl

module _ (host : ReturnHost) (human : String) (db : Db) where
  same_job :
      (job : JobRow)
      → find (λ j. str_eq j.job_id job.job_id) db.jobs ≡ some job
      → (p : IsReviewed human db job.job_id) → p.job ≡ job
  same_job job f p = let q : some p.job ≡ some job = sym p.found ∙ f in cc

  retry_found-IsRetried :
      (reason : String) (job : JobRow)
      → find (λ j. str_eq j.job_id job.job_id) db.jobs ≡ some job
      → IsRetried host human job.job_id db (retry_found host reason (some job) db)
  unfolding retry_found
  retry_found-IsRetried reason job f =
      reviewed (str_eq job.status "awaiting_review") refl (str_eq job.queue_state "awaiting_review")
        refl
    where
      reviewed :
          (b : Bool)
          → str_eq job.status "awaiting_review" ≡ b
          → (q : Bool) → str_eq job.queue_state "awaiting_review" ≡ q
          → IsRetried host human job.job_id db (
              if b && q
              then retry_cell host job reason (cell_of host (latest_result job.job_id db)) db
              else (db, retry_rejected "job_not_awaiting_review"))
      reviewed false e q g =
          unfold IsRetried in
          (
            refl,
            λ p.
                let s = ap (λ (j : JobRow). j.status) (sym (same_job job f p)) ∙ p.status in
                absurd (cc (e, (eq_iff job.status "awaiting_review").1 s)),
          )
      reviewed true e false g =
          unfold IsRetried in
          (
            refl,
            λ p.
                let s =
                  ap (λ (j : JobRow). j.queue_state) (sym (same_job job f p)) ∙ p.queue_state in
                absurd (cc (g, (eq_iff job.queue_state "awaiting_review").1 s)),
          )
      reviewed true e true g =
          retry_cell-IsRetried host human db job f ((eq_iff job.status "awaiting_review").0 e)
            ((eq_iff job.queue_state "awaiting_review").0 g) reason
            (cell_of host (latest_result job.job_id db)) refl

  -- Whatever the state of the job, the host's answers and what other processes write meanwhile, a
  -- call that rejects or raises changes nothing, and happens only where no reason is given, the job is
  -- missing or does not await review, its newest result holds no verification or no base is recorded.
  -- In every other case the job awaited review. Where the preflight check fails, or the job's attempts
  -- are used up or taken meanwhile, the job is put to await review and nothing else changes. Else it
  -- is taken to its next attempt, within its maximum and on the base that is recorded for it, and no
  -- session that was reserved for that is left dispatching. Where the reservation still stood after
  -- the dispatch, the job then runs exactly if the dispatch succeeded, and awaits review if it failed;
  -- where it did not, the jobs are as the other processes left them.
  pub retry_reviewed_job-IsRetried :
      (id : String) → IsRetried host human id db (retry_reviewed_job host id human db)
  unfolding retry_reviewed_job
  retry_reviewed_job-IsRetried id =
      reasoned (str_eq (strip human) "") refl (find (λ j. str_eq j.job_id id) db.jobs) refl
    where
      reasoned :
          (b : Bool)
          → str_eq (strip human) "" ≡ b
          → (o : Option JobRow) → find (λ j. str_eq j.job_id id) db.jobs ≡ o
          → IsRetried host human id db (
              if b
              then (db, retry_rejected "reason_required")
              else retry_found host (strip human) o db)
      reasoned true e o f = unfold IsRetried in (refl, λ p. absurd (cc (e, p.reason)))
      reasoned false e none f =
          unfold IsRetried retry_found in (refl, λ p. absurd (cc (f, p.found)))
      reasoned false e (some job) f =
          let same = (eq_iff job.job_id id).0 (find-some (λ j. str_eq j.job_id id) db.jobs job f) in
          subst
            (λ i.
              find (λ j. str_eq j.job_id i) db.jobs ≡ some job
              → IsRetried host human i db (retry_found host (strip human) (some job) db))
            same (retry_found-IsRetried (strip human) job) f
