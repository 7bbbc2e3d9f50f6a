-- ===== src/Heartbeat/Frontier/Advance.antt =====
-- Which nodes the frontier advances, and what it leaves behind.
use mathlib.Core.List.{append-nil}
use gddp_runtime.Prelude.{
  any-append, ℕ, String, Bool, true, false, some, List, [], ◌∷◌, ◌++◌, any, all, All, if◌then◌else◌,
  eq_refl, ◌≡◌, ◌⊎◌, inl, inr, refl, sym, ap, subst, arith, Bool-cases, Option-cases,
}
use gddp_runtime.Heartbeat.Gates.{GateHost}
use gddp_runtime.Heartbeat.Frontier.{
  NodeCli, is_active_job, NodeDoc, World, node_doc, has_active_job, has_pending_frontier_event,
  is_pending_frontier, dispatch_event, inject_dispatch_event, may_advance, promote, advance_node,
  advance_rows, advance_frontier, dispatch_url,
}
use gddp_runtime.Heartbeat.Graph.{NodeRow, ProjectGraph, node_status, is_satisfied}
use gddp_runtime.Heartbeat.Store.{Db, EventRow}
use gddp_runtime.Heartbeat.Frontier.Later.{
  Later, Later-refl, advance_node-step, step-Later, advance_rows-Later,
}

module _ (project : ProjectGraph) where
  -- What the frontier asks of a node, in the world before the pass.
  pub record IsUnblocked (w : World) (node : String) : Type 0 where
    pub pending : node_status project.nodes node ≡ some "pending"
    pub doc : NodeDoc
    pub described : node_doc node w.docs ≡ some doc
    pub open_gate : doc.human_gate ≡ false
    pub satisfied : all (λ d. is_satisfied (node_status project.nodes d)) doc.depends_on ≡ true
    pub idle : has_active_job w.db project.project_id node ≡ false
    pub unasked : has_pending_frontier_event w.db project.project_id node ≡ false

  pending-grows :
      (db db0 : Db) (node : String)
      → ((more : List EventRow) × (db.events ≡ db0.events ++ more))
      → has_pending_frontier_event db0 project.project_id node ≡ true
      → has_pending_frontier_event db project.project_id node ≡ true
  unfolding has_pending_frontier_event
  pending-grows db db0 node (more, e) h =
      rw e
        (rw (any-append (is_pending_frontier project.project_id node) db0.events more) (rw h refl))

  active-same :
      (db db0 : Db) (node : String)
      → db.jobs ≡ db0.jobs
      → has_active_job db project.project_id node ≡ has_active_job db0 project.project_id node
  unfolding has_active_job
  active-same db db0 node e = ap (any (is_active_job project.project_id node)) e

  -- A dispatch event of the frontier's is pending for the node.
  abbrev pub Asked : World → String → Type 0
  Asked w node = has_pending_frontier_event w.db project.project_id node ≡ true

module _ (cli : NodeCli) (event_id : String → String) (host : GateHost) (now : ℕ)
    (project : ProjectGraph) where
  step-IsUnblocked :
      (w0 w : World) (doc : NodeDoc) (node : String)
      → Later w0 w
      → node_doc node w.docs ≡ some doc
      → may_advance cli event_id host now project doc node w.db ≡ true
      → node_status project.nodes node ≡ some "pending"
      → IsUnblocked project w0 node
  unfolding may_advance
  step-IsUnblocked w0 w doc node later e m n =
      let (d0, e0, s) = later.docs node doc e in
      record {
        pending = n;
        doc = d0;
        described = e0;
        open_gate = ground (arith, s.0);
        satisfied = rw (← s.1) (ground arith);
        idle = ground (arith, active-same project w.db w0.db node later.jobs);
        unasked = elim (Bool-cases (has_pending_frontier_event w0.db project.project_id node)) [
          | inl y ↦ absurd (ground (arith, pending-grows project w.db w0.db node later.events y))
          | inr z ↦ z
        ];
      }

  dispatch_event-IsPending :
      (node : String)
      → is_pending_frontier project.project_id node (dispatch_event event_id now project node)
        ≡ true
  unfolding dispatch_event is_pending_frontier
  dispatch_event-IsPending node =
      ground (arith, eq_refl project.project_id, eq_refl (dispatch_url node))

  promote-asks :
      (doc : NodeDoc) (node : String) (w : World)
      → has_pending_frontier_event
          (promote cli event_id host now project doc node w).db
          project.project_id
          node
        ≡ true
  unfolding promote inject_dispatch_event has_pending_frontier_event
  promote-asks doc node w =
      let e = dispatch_event-IsPending node in
      rw
        (any-append (is_pending_frontier project.project_id node) w.db.events
          (dispatch_event event_id now project node ∷ []))
        (ground (arith, e))

  advance_rows_lem :
      (rows : List NodeRow) (w0 w : World)
      → Later w0 w
      → All
          (λ id.
            IsUnblocked project w0 id
            × Asked project (advance_rows cli event_id host now project rows w).0 id)
          (advance_rows cli event_id host now project rows w).1
  unfolding advance_rows
  advance_rows_lem [] w0 w later = tt
  advance_rows_lem (n ∷ rows) w0 w later =
      elim (Option-cases (advance_node cli event_id host now project n.id w)) [
        | inl e ↦ rw (e, advance_rows) (advance_rows_lem rows w0 w later)
        | inr (w', e) ↦
            let a = advance_node-step cli event_id host now project w w' n.id e in
            let ready = step-IsUnblocked w0 w a.0 n.id later a.2 a.3 a.4 in
            let first : Asked project w' n.id =
              subst (λ v. Asked project v n.id) (sym a.1) (promote-asks a.0 n.id w) in
            let grows =
              (advance_rows-Later cli event_id host now project rows w' w'
                (Later-refl w')).events in
            rw (e, advance_rows)
              (
                (ready, pending-grows project _ w'.db n.id grows first),
                advance_rows_lem rows w0 w'
                    (step-Later cli event_id host now project w0 w w' n.id later e),
              )
      ]

  -- The pass, for a project that has opted in or has not.
  abbrev passed : Bool → World → World × List String
  passed b w = if b then advance_rows cli event_id host now project project.nodes w else (w, [])

  passed_lem :
      (b : Bool) (w : World)
      → All (λ id. IsUnblocked project w id × Asked project (passed b w).0 id) (passed b w).1
        × ((passed b w).0.db.jobs ≡ w.db.jobs)
        × ((more : List EventRow) × ((passed b w).0.db.events ≡ w.db.events ++ more))
        × ((b ≡ true) ⊎ (passed b w ≡ (w, [])))
  passed_lem true w =
      let later =
        advance_rows-Later cli event_id host now project project.nodes w w (Later-refl w) in
      (advance_rows_lem project.nodes w w (Later-refl w), later.jobs, later.events, inl refl)
  passed_lem false w = (tt, refl, ([], sym (append-nil w.db.events)), inr refl)

  -- A node that the frontier advances was pending in the index, has a file of its own without a
  -- human gate, and all its dependencies were complete or provisional; before the pass it had no
  -- job in flight and no dispatch event of the frontier's pending, and after it such an event is
  -- pending for it. Jobs are left alone, events are only added, and nothing at all happens for a
  -- project that has not opted in.
  pub advance_frontier_lem :
      (w : World)
      → All
          (λ id.
            IsUnblocked project w id
            × Asked project (advance_frontier cli event_id host now project w).0 id)
          (advance_frontier cli event_id host now project w).1
        × ((advance_frontier cli event_id host now project w).0.db.jobs ≡ w.db.jobs)
        × ((more : List EventRow) × ((advance_frontier cli event_id host now project w).0.db.events
              ≡ w.db.events ++ more))
        × ((project.execution_policy.frontier_auto_advance ≡ true)
            ⊎ (advance_frontier cli event_id host now project w ≡ (w, [])))
  unfolding advance_frontier
  advance_frontier_lem w = passed_lem project.execution_policy.frontier_auto_advance w
