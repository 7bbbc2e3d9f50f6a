-- ===== src/Heartbeat/Bootstrap/Fixpoint.antt =====
-- A second pass of the bootstrap asks for nothing more.
use gddp_runtime.Prelude.{
  ℕ, String, Bool, true, false, ◌&&◌, Option, none, some, List, [], ◌∷◌, ◌++◌, any, keep, All, mem,
  if◌then◌else◌, eq_refl, ◌≡◌, ◌↔◌, ◌⊎◌, inl, inr, refl, ap, arith, Bool-cases,
}
use gddp_runtime.Heartbeat.Bootstrap.{
  column_is, dispatch_url, pending_event_statuses, HistoryRecord, is_dispatch_event,
  has_pending_dispatch, has_attempt_history, attempt_stamps, readiness_already_dispatched,
  may_bootstrap, ask, bootstrap_doc, bootstrap_node, after_bootstrap, bootstrap_rows,
  ensure_ready_frontier_events,
}
use gddp_runtime.Heartbeat.Graph.{NodeRow, ProjectGraph, node_status}
use gddp_runtime.Heartbeat.Gates.{GateHost}
use gddp_runtime.Heartbeat.Store.{Db, EventRow}
use gddp_runtime.Heartbeat.Frontier.{
  NodeDoc, World, node_doc, inject_dispatch_event, dispatch_event, has_active_job,
}

module _ (p : EventRow → Bool) (e : EventRow) where
  any_skip : (events : List EventRow) → p e ≡ false → any p (events ++ e ∷ []) ≡ any p events
  any_skip [] h = ground (arith, h)
  any_skip (x ∷ events) h = ground (arith, any_skip events h)

  keep_skip : (events : List EventRow) → p e ≡ false → keep p (events ++ e ∷ []) ≡ keep p events
  keep_skip [] h = ground (arith, h)
  keep_skip (x ∷ events) h = ground (arith, keep_skip events h)

  any_last : (events : List EventRow) → p e ≡ true → any p (events ++ e ∷ []) ≡ true
  any_last [] h = ground (arith, h)
  any_last (x ∷ events) h = ground (arith, any_last events h)

module _ (project node : String) (history : Option (List HistoryRecord)) where
  pending-dispatched :
      (db : Db)
      → has_pending_dispatch db project node ≡ true
      → readiness_already_dispatched db project node history ≡ true
  unfolding readiness_already_dispatched
  pending-dispatched db h = ground (arith, h)

  module _ (e : EventRow) (pending : e.status ≡ "received") (db : Db) where
    abbrev grown : Db
    grown = record db { events = db.events ++ e ∷ [] }

    asked_dispatched :
        is_dispatch_event project node e ≡ true
        → readiness_already_dispatched grown project node history ≡ true
    unfolding has_pending_dispatch
    asked_dispatched t =
        let open_event : mem e.status pending_event_statuses ≡ true =
          ap (λ s. mem s pending_event_statuses) pending in
        pending-dispatched grown (
          any_last (λ x. is_dispatch_event project node x && mem x.status pending_event_statuses) e
            db.events (ground (arith, t, open_event)))

    -- Another event leaves a node dispatched that was.
    dispatched_stays :
        readiness_already_dispatched db project node history ≡ true
        → readiness_already_dispatched grown project node history ≡ true
    unfolding readiness_already_dispatched has_pending_dispatch has_attempt_history attempt_stamps
        has_active_job
    dispatched_stays h = elim (Bool-cases (is_dispatch_event project node e)) [
      | inl t ↦ asked_dispatched t
      | inr t ↦
          rw
            (
              any_skip
                  (λ x. is_dispatch_event project node x && mem x.status pending_event_statuses) e
                  db.events (ground (arith, t)),
              any_skip (is_dispatch_event project node) e db.events t,
              keep_skip (is_dispatch_event project node) e db.events t,
            )
            h
    ]

module _ (event_id : String → String) (host : GateHost) (now : ℕ) (project : ProjectGraph)
    (history : String → Option (List HistoryRecord)) where
  -- The pass has nothing to ask for a node.
  abbrev Skipped : World → String → Type 0
  Skipped w node = bootstrap_node event_id host now project history node w ≡ none

  abbrev Blocked : String → Db → Option NodeDoc → Type 0
  Blocked node db none = Unit
  Blocked node db (some doc) = may_bootstrap event_id host now project history doc node db ≡ false

  doc-Blocked :
      (o : Option NodeDoc) (node : String) (w : World)
      → (bootstrap_doc event_id host now project history o node w ≡ none) ↔ Blocked node w.db o
  unfolding bootstrap_doc
  doc-Blocked none node w = (λ h. tt, λ h. refl)
  doc-Blocked (some doc) node w = (
    λ h. elim (Bool-cases (may_bootstrap event_id host now project history doc node w.db)) [
      | inl t ↦
          let q : some (ask event_id host now project history doc node w) ≡ none = rw t at h in
          absurd (cc)
      | inr t ↦ t
    ],
    λ h. rw h refl,
  )

  node-Blocked :
      (node : String) (w : World)
      → Skipped w node ↔ (
          (column_is (node_status project.nodes node) "ready" ≡ false)
          ⊎ Blocked node w.db (node_doc node w.docs))
  unfolding bootstrap_node
  node-Blocked node w = elim (Bool-cases (column_is (node_status project.nodes node) "ready")) [
    | inl t ↦ (
      λ h. inr ((doc-Blocked _ node w).0 (rw t at h)),
      λ h. elim h [ inl f ↦ absurd (cc (t, f)) | inr b ↦ rw t ((doc-Blocked _ node w).1 b) ],
    )
    | inr t ↦ (λ h. inl t, λ h. rw t refl)
  ]

  may_dispatched :
      (doc : NodeDoc) (node : String) (db : Db)
      → readiness_already_dispatched db project.project_id node (history node) ≡ true
      → may_bootstrap event_id host now project history doc node db ≡ false
  unfolding may_bootstrap
  may_dispatched doc node db h = ground (arith, h)

  inject_dispatch_event-Blocked :
      (node asked : String) (db : Db) (o : Option NodeDoc)
      → Blocked node db o
      → Blocked node (inject_dispatch_event event_id now project asked db) o
  unfolding inject_dispatch_event dispatch_event may_bootstrap
  inject_dispatch_event-Blocked node asked db none h = tt
  inject_dispatch_event-Blocked node asked db (some doc) h =
      elim (Bool-cases (readiness_already_dispatched db project.project_id node (history node))) [
        | inl t ↦ may_dispatched doc node _ (
            dispatched_stays project.project_id node (history node)
              (dispatch_event event_id now project asked) refl db t)
        | inr t ↦ ground (arith, h, t)
      ]

  asked-Blocked :
      (node : String) (db : Db) (o : Option NodeDoc)
      → Blocked node (inject_dispatch_event event_id now project node db) o
  unfolding inject_dispatch_event dispatch_event is_dispatch_event
  asked-Blocked node db none = tt
  asked-Blocked node db (some doc) = may_dispatched doc node _ (
      asked_dispatched project.project_id node (history node)
        (dispatch_event event_id now project node) refl db
        (ground (arith, eq_refl project.project_id, eq_refl (dispatch_url node))))

  node_shape :
      (node : String) (w : World)
      → Skipped w node
        ⊎ ((doc : NodeDoc) × (bootstrap_node event_id host now project history node w
              ≡ some (ask event_id host now project history doc node w)))
  unfolding bootstrap_node bootstrap_doc
  node_shape node w = elim (Bool-cases (column_is (node_status project.nodes node) "ready")) [
    | inl t ↦ rw t (shape (node_doc node w.docs))
    | inr t ↦ inl (rw t refl)
  ]
    where
      shape :
          (o : Option NodeDoc)
          → (bootstrap_doc event_id host now project history o node w ≡ none)
            ⊎ ((doc : NodeDoc) × (bootstrap_doc event_id host now project history o node w
                  ≡ some (ask event_id host now project history doc node w)))
      shape none = inl refl
      shape (some doc) =
          elim (Bool-cases (may_bootstrap event_id host now project history doc node w.db)) [
            | inl t ↦ inr (doc, rw t refl)
            | inr t ↦ inl (rw t refl)
          ]

  ask-Skipped :
      (doc : NodeDoc) (node : String) (w : World)
      → Skipped (ask event_id host now project history doc node w) node
        × ((other : String)
            → Skipped w other
            → Skipped (ask event_id host now project history doc node w) other)
  unfolding ask
  ask-Skipped doc node w = (
    (node-Blocked node _).1 (inr (asked-Blocked node w.db (node_doc node w.docs))),
    λ other s. (node-Blocked other _).1 (elim ((node-Blocked other w).0 s) [
      | inl f ↦ inl f
      | inr b ↦ inr (inject_dispatch_event-Blocked other node w.db (node_doc other w.docs) b)
    ]),
  )

  -- What one node of the loop leaves: it has nothing more to ask for itself, and for the others
  -- nothing that it had not to ask for before.
  step_skips :
      (node : String) (w : World)
      → Skipped (after_bootstrap (bootstrap_node event_id host now project history node w) w) node
        × ((other : String)
            → Skipped w other
            → Skipped
                (after_bootstrap (bootstrap_node event_id host now project history node w) w)
                other)
  unfolding after_bootstrap
  step_skips node w = elim (node_shape node w) [
    | inl e ↦ rw e (e, λ other s. s)
    | inr (doc, e) ↦ rw e (ask-Skipped doc node w)
  ]

  rows_keep :
      (rows : List NodeRow) (w : World) (other : String)
      → Skipped w other
      → Skipped (bootstrap_rows event_id host now project history rows w).0 other
  unfolding bootstrap_rows
  rows_keep [] w other h = h
  rows_keep (n ∷ rows) w other h = rows_keep rows _ other ((step_skips n.id w).1 other h)

  rows_skip :
      (rows : List NodeRow) (w : World)
      → All (λ n. Skipped (bootstrap_rows event_id host now project history rows w).0 n.id) rows
  unfolding bootstrap_rows
  rows_skip [] w = tt
  rows_skip (n ∷ rows) w = (rows_keep rows _ n.id (step_skips n.id w).0, rows_skip rows _)

  rows_none :
      (rows : List NodeRow) (w : World)
      → All (λ n. Skipped w n.id) rows
      → bootstrap_rows event_id host now project history rows w ≡ (w, [])
  unfolding bootstrap_rows after_bootstrap
  rows_none [] w h = refl
  rows_none (n ∷ rows) w h = rw (h.0, rows_none rows w h.1) refl

  gated :
      (b : Bool) (w : World)
      → (if b
          then bootstrap_rows event_id host now project history project.nodes
              (if b
                then bootstrap_rows event_id host now project history project.nodes w
                else (w, [])).0
          else (
            (if b
                then bootstrap_rows event_id host now project history project.nodes w
                else (w, [])).0,
            [],
          ))
        ≡ (
          (if b
              then bootstrap_rows event_id host now project history project.nodes w
              else (w, [])).0,
          [],
        )
  gated true w = rows_none project.nodes _ (rows_skip project.nodes w)
  gated false w = refl

  -- The second pass of the frontier leaves nothing to ask for: run again on what it left, under the
  -- same graph and the same histories, it injects no event and changes nothing.
  pub ensure_ready_frontier_events-fixpoint :
      (w : World)
      → ensure_ready_frontier_events event_id host now project history
          (ensure_ready_frontier_events event_id host now project history w).0
        ≡ ((ensure_ready_frontier_events event_id host now project history w).0, [])
  unfolding ensure_ready_frontier_events
  ensure_ready_frontier_events-fixpoint w = gated project.execution_policy.frontier_auto_advance w
