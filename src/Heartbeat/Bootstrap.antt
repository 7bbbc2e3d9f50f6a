-- ===== src/Heartbeat/Bootstrap.antt =====
-- scripts/runtime/heartbeat/frontier.py: whether a ready node was dispatched already.
pub mod Again
pub mod Fixpoint
use Prim.Native.String.{◌++◌ as text_append}
use gddp_runtime.Prelude.{
  ℕ, zero, suc, ◌+◌, ◌-◌, ◌≤◌, ◌<◌, String, Bool, true, false, ◌&&◌, ◌||◌, not, Option, none, some,
  List, [], ◌∷◌, ◌++◌, map, any, all, keep, All, nonempty, length, mem, if◌then◌else◌, ltb, leb,
  ◌==◌, str_eq, eq_iff, eq_refl, or_else, is_some, Result, ok, err, ◌>>=◌, ◌>>◌, guard, ◌≡◌, ◌≢◌,
  ◌↔◌, ◌⊎◌, inl, inr, refl, sym, ap, subst, ◌∙◌, arith, Bool-cases, Option-cases, max,
}
use gddp_runtime.Heartbeat.Graph.{NodeRow, ProjectGraph, node_status, is_satisfied}
use gddp_runtime.Heartbeat.Gates.{GateHost, ensure_dependency_gates}
use gddp_runtime.Heartbeat.Frontier.{
  NodeDoc, World, node_doc, inject_dispatch_event, dispatch_url, has_active_job,
  pending_event_statuses,
}
use gddp_runtime.Heartbeat.Store.{Db, EventRow, JobRow, Stamp, blank, malformed, at, column_is}

abbrev pub manual_url : String → String
manual_url node = text_append "manual-dispatch://node: " node

-- `project_id = ? AND url IN (?, ?)`, with both addresses of a node.
unfoldable pub is_dispatch_event : String → String → EventRow → Bool
is_dispatch_event project node e =
    column_is e.project_id project
    && (column_is e.url (dispatch_url node) || column_is e.url (manual_url node))

unfoldable pub is_node_job : String → String → JobRow → Bool
is_node_job project node j = str_eq j.project_id project && str_eq j.node_id node

unfoldable pub has_pending_dispatch : Db → String → String → Bool
has_pending_dispatch db project node =
    any (λ e. is_dispatch_event project node e && mem e.status pending_event_statuses) db.events

unfoldable pub has_attempt_history : Db → String → String → Bool
has_attempt_history db project node =
    any (is_node_job project node) db.jobs || any (is_dispatch_event project node) db.events

-- The times of a node's attempts, of its jobs and of its events.
unfoldable pub attempt_stamps : Db → String → String → List Stamp
attempt_stamps db project node =
    map (λ (j : JobRow). j.created_at) (keep (is_node_job project node) db.jobs)
    ++ map (λ (e : EventRow). e.received_at) (keep (is_dispatch_event project node) db.events)

-- The latest of them; `unparseable` is the exception where one is no time.
pub data LastAttempt : Type 0 where
  unparseable no_stamp : LastAttempt
  last : ℕ → LastAttempt

unfoldable pub later_attempt : Stamp → LastAttempt → LastAttempt
later_attempt blank rest = rest
later_attempt malformed rest = unparseable
later_attempt (at t) unparseable = unparseable
later_attempt (at t) no_stamp = last t
later_attempt (at t) (last u) = last (max t u)

unfoldable pub last_attempt_ts : List Stamp → LastAttempt
unfolding later_attempt
last_attempt_ts [] = no_stamp
last_attempt_ts (s ∷ stamps) = later_attempt s (last_attempt_ts stamps)

-- A record of a node's status history, with the keys that are read.
pub record HistoryRecord : Type 0 where
  pub kind : Option String
  pub to_status : Option String
  pub ts : Stamp

ready_time : HistoryRecord → Option ℕ
ready_time r =
    if column_is r.kind "graph" && column_is r.to_status "ready"
    then elim r.ts [ blank ↦ none | malformed ↦ none | at t ↦ some t ]
    else none

unfoldable pub later_time : Option ℕ → Option ℕ → Option ℕ
later_time none b = b
later_time (some a) none = some a
later_time (some a) (some b) = some (max a b)

latest_ready : List HistoryRecord → Option ℕ
unfolding ready_time later_time
latest_ready [] = none
latest_ready (r ∷ records) = later_time (ready_time r) (latest_ready records)

-- `none` where the history cannot be loaded.
unfoldable pub latest_human_ready_ts : Option (List HistoryRecord) → Option ℕ
unfolding latest_ready
latest_human_ready_ts none = none
latest_human_ready_ts (some records) = latest_ready records

-- `parsed_ready <= parsed_attempt`, and true where one of the times is not there.
unfoldable pub not_reasserted : LastAttempt → Option ℕ → Bool
not_reasserted unparseable ready = true
not_reasserted no_stamp ready = true
not_reasserted (last t) none = true
not_reasserted (last t) (some ready) = leb ready t

unfoldable pub readiness_already_dispatched :
    Db → String → String → Option (List HistoryRecord) → Bool
unfolding not_reasserted last_attempt_ts attempt_stamps
readiness_already_dispatched db project node history =
    if has_active_job db project node
    then true
    else if has_pending_dispatch db project node
    then true
    else if not (has_attempt_history db project node)
    then false
    else not_reasserted (last_attempt_ts (attempt_stamps db project node))
        (latest_human_ready_ts history)

unfoldable pub after_bootstrap : Option World → World → World
after_bootstrap none w = w
after_bootstrap (some w') w = w'

-- The second pass, over the nodes that the index calls ready. `history` is a node's status history.
module _ (event_id : String → String) (host : GateHost) (now : ℕ) (project : ProjectGraph)
    (history : String → Option (List HistoryRecord)) where
  unfoldable pub may_bootstrap : NodeDoc → String → Db → Bool
  may_bootstrap doc node db =
      not doc.human_gate
      && all (λ d. is_satisfied (node_status project.nodes d)) doc.depends_on
      && not (readiness_already_dispatched db project.project_id node (history node))

  unfoldable pub ask : NodeDoc → String → World → World
  ask doc node w = record w {
    db = inject_dispatch_event event_id now project node w.db;
    gates = ensure_dependency_gates host doc.depends_on w.gates;
  }

  unfoldable pub bootstrap_doc : Option NodeDoc → String → World → Option World
  unfolding may_bootstrap ask
  bootstrap_doc none node w = none
  bootstrap_doc (some doc) node w =
      if may_bootstrap doc node w.db then some (ask doc node w) else none

  -- One node of the loop: the world after its event, or nothing.
  unfoldable pub bootstrap_node : String → World → Option World
  unfolding bootstrap_doc
  bootstrap_node node w =
      if column_is (node_status project.nodes node) "ready"
      then bootstrap_doc (node_doc node w.docs) node w
      else none

  unfoldable pub bootstrap_rows : List NodeRow → World → World × List String
  unfolding bootstrap_node after_bootstrap
  bootstrap_rows [] w = (w, [])
  bootstrap_rows (n ∷ rows) w =
      let asked = bootstrap_node n.id w in
      let rest = bootstrap_rows rows (after_bootstrap asked w) in
      (rest.0, if is_some asked then n.id ∷ rest.1 else rest.1)

  unfoldable pub ensure_ready_frontier_events : World → World × List String
  unfolding bootstrap_rows
  ensure_ready_frontier_events w =
      if project.execution_policy.frontier_auto_advance
      then bootstrap_rows project.nodes w
      else (w, [])
