-- ===== src/Heartbeat/Frontier.antt =====
-- scripts/runtime/heartbeat/frontier.py: turning unblocked nodes ready, and the event that sends each
-- of them on.
pub mod Later
pub mod Advance
use Prim.Native.String.{◌++◌ as text_append}
use gddp_runtime.Prelude.{
  ℕ, zero, suc, ◌+◌, ◌-◌, ◌≤◌, ◌<◌, String, Bool, true, false, ◌&&◌, ◌||◌, not, Option, none, some,
  List, [], ◌∷◌, ◌++◌, map, any, all, keep, All, nonempty, length, mem, if◌then◌else◌, ltb, leb,
  ◌==◌, str_eq, eq_iff, eq_refl, or_else, is_some, Result, ok, err, ◌>>=◌, ◌>>◌, guard, ◌≡◌, ◌≢◌,
  ◌↔◌, ◌⊎◌, inl, inr, refl, sym, ap, subst, ◌∙◌, arith, Bool-cases, Option-cases,
}
use gddp_runtime.Heartbeat.Gates.{GateHost, GateDir, ensure_dependency_gates}
use gddp_runtime.Heartbeat.Graph.{NodeRow, ProjectGraph, ExecutionPolicy, node_status, is_satisfied}
use gddp_runtime.Heartbeat.Store.{
  column_is, Db, EventRow, JobRow, Stamp, blank, malformed, at, Routing, selected_executor, unset,
  no_path, find,
}
use gddp_runtime.Heartbeat.Scope.{is_active_job}

-- The keys of a node's own file that the frontier reads.
pub record NodeDoc : Type 0 where
  pub human_gate : Bool
  pub depends_on : List String
  pub status : String

-- The part of the graph checkout's own tool that writes statuses: of a node's file and of the
-- index. A node's file keeps its other keys.
pub record NodeCli : Type 0 where
  pub replace_node_status : NodeDoc → String → NodeDoc
  pub replace_index_status : List NodeRow → (node status : String) → List NodeRow
  pub keeps_gate :
      (d : NodeDoc) (status : String) → (replace_node_status d status).human_gate ≡ d.human_gate
  pub keeps_depends_on :
      (d : NodeDoc) (status : String) → (replace_node_status d status).depends_on ≡ d.depends_on

-- The graph's files, the tables and the gate tokens of the project's checkout.
pub record World : Type 0 where
  pub rows : List NodeRow
  pub docs : List (String × NodeDoc)
  pub db : Db
  pub gates : GateDir

unfoldable pub node_doc : String → List (String × NodeDoc) → Option NodeDoc
node_doc id [] = none
node_doc id ((k, d) ∷ docs) = or_else (if str_eq k id then some d else none) (node_doc id docs)

abbrev pub dispatch_url : String → String
dispatch_url node = text_append "frontier-dispatch://node: " node

abbrev pub pending_event_statuses : List String
pending_event_statuses = "received" ∷ "claimed" ∷ []

unfoldable pub has_active_job : Db → String → String → Bool
has_active_job db project node = any (is_active_job project node) db.jobs

unfoldable pub is_pending_frontier : String → String → EventRow → Bool
is_pending_frontier project node e =
    column_is e.project_id project
    && str_eq e.source "frontier_auto"
    && mem e.status pending_event_statuses
    && column_is e.url (dispatch_url node)

unfoldable pub has_pending_frontier_event : Db → String → String → Bool
has_pending_frontier_event db project node = any (is_pending_frontier project node) db.events

-- `_auto_dispatch_routing`: the project's default executor, or nothing.
abbrev pub chosen_executor : Option String → Option String
chosen_executor none = none
chosen_executor (some e) = if str_eq e "" then none else some e

unfoldable pub auto_dispatch_routing : ProjectGraph → Routing
auto_dispatch_routing p = selected_executor (chosen_executor p.execution_policy.default_executor)

-- `event_id` is the random identifier of the node's event.
unfoldable pub dispatch_event : (String → String) → ℕ → ProjectGraph → String → EventRow
unfolding auto_dispatch_routing
dispatch_event event_id now project node = record {
  event_id = event_id node;
  received_at = at now;
  source = "frontier_auto";
  event_type = "issue.opened";
  url = some (dispatch_url node);
  branch = none;
  project_id = some project.project_id;
  repo = some project.repo;
  status = "received";
  scope_status = "pending";
  classification = unset;
  routing = some (auto_dispatch_routing project);
  raw_payload = no_path;
  claimed_at = none;
}

unfoldable pub inject_dispatch_event : (String → String) → ℕ → ProjectGraph → String → Db → Db
unfolding dispatch_event
inject_dispatch_event event_id now project node db = record db {
  events = db.events ++ dispatch_event event_id now project node ∷ [];
}

unfoldable pub set_doc : NodeCli → String → String → (String × NodeDoc) → String × NodeDoc
set_doc cli node status e = if str_eq e.0 node then (e.0, cli.replace_node_status e.1 status) else e

module _ (cli : NodeCli) (event_id : String → String) (host : GateHost) (now : ℕ)
    (project : ProjectGraph) where
  -- The guards of `advance_frontier`, for a node that the index calls pending.
  unfoldable pub may_advance : NodeDoc → String → Db → Bool
  may_advance doc node db =
      not doc.human_gate
      && all (λ d. is_satisfied (node_status project.nodes d)) doc.depends_on
      && not (has_active_job db project.project_id node)
      && not (has_pending_frontier_event db project.project_id node)

  unfoldable pub promote : NodeDoc → String → World → World
  unfolding set_doc
  promote doc node w = record {
    rows = cli.replace_index_status w.rows node "ready";
    docs = map (set_doc cli node "ready") w.docs;
    db = inject_dispatch_event event_id now project node w.db;
    gates = ensure_dependency_gates host doc.depends_on w.gates;
  }

  unfoldable pub step_doc : Option NodeDoc → String → World → Option World
  unfolding may_advance promote
  step_doc none node w = none
  step_doc (some doc) node w = if may_advance doc node w.db then some (promote doc node w) else none

  -- One node of the loop: the world after its promotion, or nothing.
  unfoldable pub advance_node : String → World → Option World
  unfolding step_doc
  advance_node node w =
      if column_is (node_status project.nodes node) "pending"
      then step_doc (node_doc node w.docs) node w
      else none

  unfoldable pub advance_rows : List NodeRow → World → World × List String
  unfolding advance_node
  advance_rows [] w = (w, [])
  advance_rows (n ∷ rows) w =
      let kept = advance_rows rows w in
      elim (advance_node n.id w) [
        | none ↦ kept
        | some w' ↦ let rest = advance_rows rows w' in (rest.0, n.id ∷ rest.1)
      ]

  unfoldable pub advance_frontier : World → World × List String
  unfolding advance_rows
  advance_frontier w =
      if project.execution_policy.frontier_auto_advance
      then advance_rows project.nodes w
      else (w, [])
