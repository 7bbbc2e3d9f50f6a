-- ===== src/Heartbeat/Adoption/Guards.antt =====
-- What an adoption checked, and what it writes.
use gddp_runtime.Prelude.{
  guard-ok, bind-ok, ok-injective, ℕ, String, Bool, true, false, ◌&&◌, not, Option, none, some,
  List, [], ◌∷◌, ◌++◌, any, mem, if◌then◌else◌, str_eq, eq_iff, eq_refl, ok, ◌>>◌, guard, ◌≡◌, ◌⊎◌,
  inl, inr, refl, sym, ap, subst, ◌∙◌, arith, Bool-cases,
}
use gddp_runtime.Heartbeat.Adoption.{
  commit_unresolved, checkout_unresolved, base_not_ancestor, graph_missing, node_terminal,
  adopt_commit, adopt_node, executor_unknown, commit_recorded, active_job, insert_rows,
  job_not_found, column_is, AdoptionError, terminal_statuses, Adoption, AdoptionHost, found,
  adopted_event, adopted_job, records_commit, set_result, adopted_session, write_rows,
  resolved_base, base_precedes, adopt,
}
use gddp_runtime.Heartbeat.Graph.{NodeData, ProjectGraph}
use gddp_runtime.Heartbeat.Store.{Db, JobRow, SessionRow, update, set_if, find}
use gddp_runtime.Heartbeat.Scope.{is_active_job}
use gddp_runtime.Heartbeat.Recorder.{insert_job}
use gddp_runtime.Heartbeat.Sessions.{filled, new_session, insert_executor_session}

-- A collected session of the job carries the commit.
abbrev pub carries : JobRow → String → SessionRow → Bool
carries job commit s =
    str_eq s.job_id job.job_id && str_eq s.state "collected" && column_is s.result_commit_sha commit

-- What a successful adoption of a commit went by.
pub record IsAdopted (host : AdoptionHost) (a : Adoption) (db : Db) (job : JobRow) (db' : Db)
    : Type 0 where
  pub project : ProjectGraph
  pub loaded : host.load_project a.project_id ≡ some project
  pub node : NodeData
  pub declared : host.load_node a.project_id a.node_id ≡ some node
  pub open_status : mem node.status terminal_statuses ≡ false
  pub path : String
  pub checkout : host.resolve_checkout project.repo ≡ some path
  pub commit : String
  pub resolved : host.resolve_commit path a.commit ≡ some commit
  pub idle : any (is_active_job project.project_id node.node_id) db.jobs ≡ false
  pub unrecorded : any (records_commit commit) db.sessions ≡ false
  pub written :
      ((a.dry_run ≡ true) × (db' ≡ db))
      ⊎ ((db'.jobs ≡ db.jobs ++ job ∷ [])
          × (job.status ≡ "awaiting_result")
          × (any (carries job commit) db'.sessions ≡ true))

found-ok : {A : Type 0} (e : AdoptionError) (o : Option A) (a : A) → found e o ≡ ok a → o ≡ some a
unfolding found
found-ok e none a h = absurd (cc)
found-ok e (some b) a h = ap some (ok-injective b a h)

any_updated_last :
    (p q : SessionRow → Bool) (f : SessionRow → SessionRow) (rows : List SessionRow)
    (s : SessionRow)
    → p (set_if q f s) ≡ true
    → any p (update q f (rows ++ s ∷ [])) ≡ true
any_updated_last p q f [] s h = ground (arith, h)
any_updated_last p q f (r ∷ rows) s h = ground (arith, any_updated_last p q f rows s h)

not-true : (b : Bool) → not b ≡ true → b ≡ false
not-true true h = absurd (cc)
not-true false h = refl

set_result-carries :
    (now : ℕ) (job : JobRow) (commit : String) (base : Option String) (db : Db) (s : SessionRow)
    → s.job_id ≡ job.job_id
    → s.state ≡ "collected"
    → any
        (carries job commit)
        (set_result now s.session_db_id commit base
          (record db { sessions = db.sessions ++ s ∷ [] })).sessions
      ≡ true
unfolding set_result set_if
set_result-carries now job commit base db s e c =
    any_updated_last (carries job commit) (λ x. str_eq x.session_db_id s.session_db_id)
      (λ x. record x {
        result_commit_sha = some commit;
        expected_base_commit_sha = base;
        updated_at = now;
      })
      db.sessions s (last (str_eq s.session_db_id s.session_db_id) (eq_refl s.session_db_id))
  where
    same_job : str_eq s.job_id job.job_id ≡ true
    same_job = (eq_iff s.job_id job.job_id).1 e

    is_collected : str_eq s.state "collected" ≡ true
    is_collected = (eq_iff s.state "collected").1 c

    last :
        (b : Bool)
        → b ≡ true
        → carries job commit (
            if b
            then record s {
              result_commit_sha = some commit;
              expected_base_commit_sha = base;
              updated_at = now;
            }
            else s)
          ≡ true
    last true t = ground (arith, same_job, is_collected, eq_refl commit)
    last false t = absurd (cc)

module _ (host : AdoptionHost) (a : Adoption) where
  adopted_session-carries :
      (node : NodeData) (job : JobRow) (commit : String) (base : Option String) (db db' : Db)
      → adopted_session host a node job commit base db ≡ ok db'
      → (db'.jobs ≡ db.jobs) × (any (carries job commit) db'.sessions ≡ true)
  unfolding adopted_session insert_executor_session new_session set_result
  adopted_session-carries node job commit base db db' h =
      let r =
        bind-ok (found job_not_found (find (λ j. str_eq j.job_id job.job_id) db.jobs)) _ db' h in
      let q = ok-injective _ db' r.2 in
      (
        ap (λ (d : Db). d.jobs) (sym q),
        subst (λ (d : Db). any (carries job commit) d.sessions ≡ true) q
            (set_result-carries host.tick.now job commit base db _ refl refl),
      )

  module _ (project : ProjectGraph) (node : NodeData) (commit : String) (base : Option String)
      (db db' : Db) (job : JobRow) where
    inserted_rows :
        insert_rows host a project node commit base db ≡ ok (job, db')
        → (db'.jobs ≡ db.jobs ++ job ∷ [])
          × (job.status ≡ "awaiting_result")
          × (any (carries job commit) db'.sessions ≡ true)
    unfolding insert_rows adopted_job insert_job
    inserted_rows h =
        let made = adopted_job host a project node base in
        let r =
          bind-ok
            (adopted_session host a node made commit base (
              insert_job made
                (record db { events = db.events ++ adopted_event host a project node ∷ [] })))
            (λ d. ok (made, d)) (job, db') h in
        let q = ok-injective (made, r.0) (job, db') r.2 in
        let c = adopted_session-carries node made commit base _ r.0 r.1 in
        subst
          (λ (x : JobRow × Db).
            (x.1.jobs ≡ db.jobs ++ x.0 ∷ [])
            × (x.0.status ≡ "awaiting_result")
            × (any (carries x.0 commit) x.1.sessions ≡ true))
          q (c.0, refl, c.1)

    written_rows :
        write_rows host a project node commit base db ≡ ok (job, db')
        → (any (is_active_job project.project_id node.node_id) db.jobs ≡ false)
          × (any (records_commit commit) db.sessions ≡ false)
          × (((a.dry_run ≡ true) × (db' ≡ db))
              ⊎ ((db'.jobs ≡ db.jobs ++ job ∷ [])
                  × (job.status ≡ "awaiting_result")
                  × (any (carries job commit) db'.sessions ≡ true)))
    unfolding write_rows
    written_rows h =
        let made = adopted_job host a project node base in
        let last =
          (if a.dry_run then ok (made, db) else insert_rows host a project node commit base db) in
        let g =
          guard-ok (not (any (is_active_job project.project_id node.node_id) db.jobs)) active_job
            (guard (not (any (records_commit commit) db.sessions)) commit_recorded >> last)
            (job, db') h in
        let g' =
          guard-ok (not (any (records_commit commit) db.sessions)) commit_recorded last (job, db')
            g.1 in
        (
          ground (arith, g.0),
          ground (arith, g'.0),
          elim (Bool-cases a.dry_run) [
            | inl t ↦
                let q =
                  ap
                    (λ b.
                      if b then ok (made, db) else insert_rows host a project node commit base db)
                    (sym t)
                  ∙ g'.1 in
                inl (t, sym (ap (λ (x : JobRow × Db). x.1) (ok-injective (made, db) (job, db') q)))
            | inr t ↦ inr (
                inserted_rows (
                  ap
                    (λ b.
                      if b then ok (made, db) else insert_rows host a project node commit base db)
                    (sym t)
                  ∙ g'.1))
          ],
        )

  module _ (project : ProjectGraph) (node : NodeData) (db db' : Db) (job : JobRow) where
    abbrev Written : String → Type 0
    Written commit =
        (any (is_active_job project.project_id node.node_id) db.jobs ≡ false)
        × (any (records_commit commit) db.sessions ≡ false)
        × (((a.dry_run ≡ true) × (db' ≡ db))
            ⊎ ((db'.jobs ≡ db.jobs ++ job ∷ [])
                × (job.status ≡ "awaiting_result")
                × (any (carries job commit) db'.sessions ≡ true)))

    adopt_commit_lem :
        (path commit : String)
        → adopt_commit host a project node path commit db ≡ ok (job, db')
        → Written commit
    unfolding adopt_commit
    adopt_commit_lem path commit h =
        let b = bind-ok (resolved_base host path (filled a.base)) _ _ h in
        let m =
          guard-ok (base_precedes host path commit b.0) base_not_ancestor
            (write_rows host a project node commit b.0 db) (job, db') b.2 in
        written_rows project node commit b.0 db db' job m.1

    adopt_node_lem :
        adopt_node host a project node db ≡ ok (job, db')
        → (mem node.status terminal_statuses ≡ false)
          × ((path commit : String) × (host.resolve_checkout project.repo ≡ some path)
              × (host.resolve_commit path a.commit ≡ some commit)
              × Written commit)
    unfolding adopt_node
    adopt_node_lem h =
        let t = guard-ok (not (mem node.status terminal_statuses)) node_terminal _ (job, db') h in
        let c = bind-ok (found checkout_unresolved (host.resolve_checkout project.repo)) _ _ t.1 in
        let s = bind-ok (found commit_unresolved (host.resolve_commit c.0 a.commit)) _ _ c.2 in
        (
          not-true _ t.0,
          (c.0, s.0, found-ok _ _ _ c.1, found-ok _ _ _ s.1, adopt_commit_lem c.0 s.0 s.2),
        )

-- Work that is adopted is of a node that is neither complete nor deferred and has no job in flight,
-- at a commit that the checkout has and that no session has recorded. A dry run writes nothing;
-- any other adoption adds one job, which awaits its result, and leaves a collected session of it that
-- carries the commit.
pub adopt-IsAdopted :
    (host : AdoptionHost) (a : Adoption) (db db' : Db) (job : JobRow)
    → adopt host a db ≡ ok (job, db')
    → IsAdopted host a db job db'
unfolding adopt
adopt-IsAdopted host a db db' job h =
    let g = guard-ok (mem a.executor host.adapters) executor_unknown _ (job, db') h in
    let p = bind-ok (found graph_missing (host.load_project a.project_id)) _ _ g.1 in
    let n = bind-ok (found graph_missing (host.load_node a.project_id a.node_id)) _ _ p.2 in
    let w = adopt_node_lem host a p.0 n.0 db db' job n.2 in
    record {
      project = p.0;
      loaded = found-ok _ _ _ p.1;
      node = n.0;
      declared = found-ok _ _ _ n.1;
      open_status = w.0;
      path = w.1.0;
      commit = w.1.1;
      checkout = w.1.2;
      resolved = w.1.3;
      idle = w.1.4.0;
      unrecorded = w.1.4.1;
      written = w.1.4.2;
    }
