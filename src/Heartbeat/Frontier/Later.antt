-- ===== src/Heartbeat/Frontier/Later.antt =====
-- What a pass of the frontier changes: the worlds that follow a world.
use mathlib.Core.List.{append-nil, append_assoc}
use gddp_runtime.Prelude.{
  ℕ, String, true, Option, none, some, List, [], ◌∷◌, ◌++◌, map, str_eq, eq_iff, ◌≡◌, inl, inr,
  refl, sym, ap, subst, ◌∙◌, arith, Bool-cases, Option-cases,
}
use gddp_runtime.Heartbeat.Gates.{GateHost}
use gddp_runtime.Heartbeat.Graph.{NodeRow, ProjectGraph, node_status}
use gddp_runtime.Heartbeat.Store.{EventRow, column_is}
use gddp_runtime.Heartbeat.Frontier.{
  NodeCli, NodeDoc, World, node_doc, dispatch_event, inject_dispatch_event, set_doc, may_advance,
  promote, step_doc, advance_node, advance_rows,
}

-- The node's own file says the same of its gate and its dependencies.
abbrev pub SameDoc : NodeDoc → NodeDoc → Type 0
SameDoc d d0 = (d.human_gate ≡ d0.human_gate) × (d.depends_on ≡ d0.depends_on)

-- A world of the same pass: the jobs are the same, the events are at least those, and the nodes'
-- files differ in their status only.
pub record Later (w0 w : World) : Type 0 where
  pub jobs : w.db.jobs ≡ w0.db.jobs
  pub events : (more : List EventRow) × (w.db.events ≡ w0.db.events ++ more)
  pub docs :
      (id : String) (d : NodeDoc)
      → node_doc id w.docs ≡ some d
      → (d0 : NodeDoc) × (node_doc id w0.docs ≡ some d0) × SameDoc d d0

pub Later-refl : (w : World) → Later w w
Later-refl w = record {
  jobs = refl;
  events = ([], sym (append-nil w.db.events));
  docs = λ id d h. (d, h, (refl, refl));
}

node_doc-set_doc :
    (cli : NodeCli) (node status id : String) (docs : List (String × NodeDoc)) (d : NodeDoc)
    → node_doc id (map (set_doc cli node status) docs) ≡ some d
    → (d0 : NodeDoc) × (node_doc id docs ≡ some d0) × SameDoc d d0
unfolding node_doc set_doc
node_doc-set_doc cli node status id [] d h = absurd (cc)
node_doc-set_doc cli node status id ((k, e) ∷ docs) d h = elim (Bool-cases (str_eq k node)) [
  | inl n ↦ elim (Bool-cases (str_eq k id)) [
    | inl m ↦
        let q : some (cli.replace_node_status e status) ≡ some d = rw (n, m) at h in
        (
          e,
          rw m,
          (ground (arith, cli.keeps_gate e status), ground (arith, cli.keeps_depends_on e status)),
        )
    | inr m ↦ rw m (node_doc-set_doc cli node status id docs d (rw (n, m) at h))
  ]
  | inr n ↦ elim (Bool-cases (str_eq k id)) [
    | inl m ↦ let q : some e ≡ some d = rw (n, m) at h in (e, rw m, (ground arith, ground arith))
    | inr m ↦ rw m (node_doc-set_doc cli node status id docs d (rw (n, m) at h))
  ]
]

module _ (cli : NodeCli) (event_id : String → String) (host : GateHost) (now : ℕ)
    (project : ProjectGraph) where
  pub promote-Later :
      (w0 w : World) (doc : NodeDoc) (node : String)
      → Later w0 w
      → Later w0 (promote cli event_id host now project doc node w)
  unfolding promote inject_dispatch_event
  promote-Later w0 w doc node h = record {
    jobs = h.jobs;
    events = (
      h.events.0 ++ dispatch_event event_id now project node ∷ [],
      rw h.events.1
          (append_assoc w0.db.events h.events.0 (dispatch_event event_id now project node ∷ [])),
    );
    docs = λ id d e.
        let (d1, e1, s1) = node_doc-set_doc cli node "ready" id w.docs d e in
        let (d0, e0, s0) = h.docs id d1 e1 in (d0, e0, (s1.0 ∙ s0.0, s1.1 ∙ s0.1));
  }

  pub advance_node-step :
      (w w' : World) (node : String)
      → advance_node cli event_id host now project node w ≡ some w'
      → (doc : NodeDoc) × (w' ≡ promote cli event_id host now project doc node w)
        × (node_doc node w.docs ≡ some doc)
        × (may_advance cli event_id host now project doc node w.db ≡ true)
        × (node_status project.nodes node ≡ some "pending")
  unfolding advance_node step_doc
  advance_node-step w w' node h =
      elim (Bool-cases (column_is (node_status project.nodes node) "pending")) [
        | inl p ↦
            step (node_doc node w.docs) refl (rw p at h)
              (pending (node_status project.nodes node) p)
        | inr p ↦ let absent : none ≡ some w' = rw p at h in absurd (cc)
      ]
    where
      pending : (o : Option String) → column_is o "pending" ≡ true → o ≡ some "pending"
      pending none e = absurd (cc)
      pending (some s) e = ap some ((eq_iff s "pending").0 e)

      step :
          (o : Option NodeDoc)
          → node_doc node w.docs ≡ o
          → step_doc cli event_id host now project o node w ≡ some w'
          → node_status project.nodes node ≡ some "pending"
          → (doc : NodeDoc) × (w' ≡ promote cli event_id host now project doc node w)
            × (node_doc node w.docs ≡ some doc)
            × (may_advance cli event_id host now project doc node w.db ≡ true)
            × (node_status project.nodes node ≡ some "pending")
      step none e q n = absurd (cc)
      step (some doc) e q n =
          elim (Bool-cases (may_advance cli event_id host now project doc node w.db)) [
            | inl m ↦
                let same : some (promote cli event_id host now project doc node w) ≡ some w' =
                  rw m at q in
                (doc, cc, e, m, n)
            | inr m ↦ let absent : none ≡ some w' = rw m at q in absurd (cc)
          ]

  pub step-Later :
      (w0 w w' : World) (node : String)
      → Later w0 w
      → advance_node cli event_id host now project node w ≡ some w'
      → Later w0 w'
  step-Later w0 w w' node later h =
      let a = advance_node-step w w' node h in
      subst (Later w0) (sym a.1) (promote-Later w0 w a.0 node later)

  pub advance_rows-Later :
      (rows : List NodeRow) (w0 w : World)
      → Later w0 w
      → Later w0 (advance_rows cli event_id host now project rows w).0
  unfolding advance_rows
  advance_rows-Later [] w0 w later = later
  advance_rows-Later (n ∷ rows) w0 w later =
      elim (Option-cases (advance_node cli event_id host now project n.id w)) [
        | inl e ↦ rw (e, advance_rows) (advance_rows-Later rows w0 w later)
        | inr (w', e) ↦
            rw (e, advance_rows) (advance_rows-Later rows w0 w' (step-Later w0 w w' n.id later e))
      ]
