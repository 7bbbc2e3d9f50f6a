-- ===== src/Heartbeat/Recorder/Drain.antt =====
-- The review queue drains.
use gddp_runtime.Prelude.{
  keep, eq_refl, String, Bool, true, false, ◌&&◌, Option, none, some, List, [], ◌∷◌, any, All,
  str_eq, eq_iff, ◌≡◌, ◌⊎◌, inl, inr, refl, arith, Bool-cases, Option-cases, All-map, All-imp,
}
use gddp_runtime.Heartbeat.Graph.{NodeRow, node_status}
use gddp_runtime.Heartbeat.Store.{Db, JobRow, set_if}
use gddp_runtime.Heartbeat.Recorder.{
  terminal_job_status, reconcile_job, reconcile_rows, reconcile_reviewed_jobs,
}

not_review :
    (u t : String)
    → some u ≡ some t
    → str_eq u "awaiting_review" ≡ false
    → str_eq t "awaiting_review" ≡ false
not_review u t h e = let same : u ≡ t = cc in rw same at e

terminal_not_review :
    (s : Option String) (t : String)
    → terminal_job_status s ≡ some t
    → str_eq t "awaiting_review" ≡ false
unfolding terminal_job_status
terminal_not_review none t h = absurd (cc)
terminal_not_review (some s) t h = elim (Bool-cases (str_eq s "complete")) [
  | inl e ↦ not_review "accepted" t (rw e at h) refl
  | inr e ↦ elim (Bool-cases (str_eq s "deferred")) [
    | inl d ↦ not_review "deferred" t (rw (e, d) at h) refl
    | inr d ↦ let absent : none ≡ some t = rw (e, d) at h in absurd (cc)
  ]
]

module _ (status_by_id : String → Option String) (project : String) where
  -- The job waits for review only while its node has no terminal status.
  abbrev pub IsDrained : JobRow → Type 0
  IsDrained j =
      (str_eq j.project_id project ≡ false)
      ⊎ (str_eq j.status "awaiting_review" ≡ false)
      ⊎ (terminal_job_status (status_by_id j.node_id) ≡ none)

  abbrev covered : List JobRow → JobRow → Bool
  covered rows j = any (λ r. str_eq r.job_id j.job_id && str_eq r.node_id j.node_id) rows

  abbrev Pending : List JobRow → JobRow → Type 0
  Pending rows j = IsDrained j ⊎ (covered rows j ≡ true)

  abbrev job' : String → String → JobRow → JobRow
  job' id state =
      set_if (λ j. str_eq j.job_id id && str_eq j.status "awaiting_review")
        (λ j. record j { status = state; queue_state = state })

  step_kept :
      (r : JobRow) (rows : List JobRow) (j : JobRow)
      → terminal_job_status (status_by_id r.node_id) ≡ none
      → Pending (r ∷ rows) j
      → Pending rows j
  step_kept r rows j e (inl d) = inl d
  step_kept r rows j e (inr c) =
      elim (Bool-cases (str_eq r.job_id j.job_id && str_eq r.node_id j.node_id)) [
        | inl m ↦
            let same : r.node_id ≡ j.node_id = ground (arith, eq_iff r.node_id j.node_id) in
            inl (inr (inr (rw same at e)))
        | inr m ↦ inr (rw m at c)
      ]

  -- A job that is moved waits no more; one that is not moved is pending as before.
  step_moved :
      (r : JobRow) (rows : List JobRow) (state : String) (j : JobRow)
      → terminal_job_status (status_by_id r.node_id) ≡ some state
      → Pending (r ∷ rows) j
      → Pending rows (job' r.job_id state j)
  unfolding set_if
  step_moved r rows state j e p =
      elim (Bool-cases (str_eq j.job_id r.job_id && str_eq j.status "awaiting_review")) [
        | inl m ↦ inl (inr (inl (rw m (terminal_not_review _ _ e))))
        | inr m ↦ rw m (still m p)
      ]
    where
      still :
          (str_eq j.job_id r.job_id && str_eq j.status "awaiting_review") ≡ false
          → Pending (r ∷ rows) j
          → Pending rows j
      still m (inl d) = inl d
      still m (inr c) = elim (Bool-cases (str_eq r.job_id j.job_id && str_eq r.node_id j.node_id)) [
        | inl k ↦
            inl (inr (inl (ground (arith, eq_iff r.job_id j.job_id, eq_iff j.job_id r.job_id))))
        | inr k ↦ inr (rw k at c)
      ]

  reconcile_rows-IsDrained :
      (rows : List JobRow) (db : Db)
      → All (Pending rows) db.jobs
      → All IsDrained (reconcile_rows status_by_id rows db).0.jobs
  unfolding reconcile_rows reconcile_job
  reconcile_rows-IsDrained [] db h = All-imp (Pending []) IsDrained (λ j p. settled j p) db.jobs h
    where
      settled : (j : JobRow) → Pending [] j → IsDrained j
      settled j (inl d) = d
      settled j (inr c) = absurd (cc)
  reconcile_rows-IsDrained (r ∷ rows) db h =
      elim (Option-cases (terminal_job_status (status_by_id r.node_id))) [
        | inl e ↦
            rw (e, reconcile_rows)
              (reconcile_rows-IsDrained rows db (All-imp _ _ (λ j. step_kept r rows j e) db.jobs h))
        | inr (state, e) ↦
            rw (e, reconcile_rows)
              (reconcile_rows-IsDrained rows (reconcile_job r.job_id state db) (
                All-map (Pending rows) (job' r.job_id state) db.jobs
                  (All-imp _ _ (λ j. step_moved r rows state j e) db.jobs h)))
      ]

  abbrev waits : JobRow → Bool
  waits j = str_eq j.project_id project && str_eq j.status "awaiting_review"

  covered_more :
      (rows : List JobRow) (k j : JobRow)
      → Pending (keep waits rows) j
      → Pending (keep waits (k ∷ rows)) j
  covered_more rows k j (inl d) = inl d
  covered_more rows k j (inr c) = inr (ground arith)

  unwaiting : (j : JobRow) → waits j ≡ false → IsDrained j
  unwaiting j w = ground arith

  covered_head : (rows : List JobRow) (j : JobRow) → Pending (keep waits (j ∷ rows)) j
  covered_head rows j = elim (Bool-cases (waits j)) [
    | inl w ↦ inr (ground (arith, eq_refl j.job_id, eq_refl j.node_id))
    | inr w ↦ inl (unwaiting j w)
  ]

  rows-Pending : (rows : List JobRow) → All (Pending (keep waits rows)) rows
  rows-Pending [] = tt
  rows-Pending (j ∷ rows) =
      (covered_head rows j, All-imp _ _ (covered_more rows j) rows (rows-Pending rows))

-- After the pass, no job of the project waits for review whose node has reached a terminal graph
-- status, complete or deferred.
pub reconcile_reviewed_jobs-IsDrained :
    (project : String) (nodes : List NodeRow) (db : Db)
    → All (IsDrained (node_status nodes) project) (reconcile_reviewed_jobs project nodes db).0.jobs
unfolding reconcile_reviewed_jobs
reconcile_reviewed_jobs-IsDrained project nodes db =
    reconcile_rows-IsDrained (node_status nodes) project _ db
      (rows-Pending (node_status nodes) project db.jobs)
