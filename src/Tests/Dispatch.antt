-- ===== src/Tests/Dispatch.antt =====
-- The theorems on the gate, the classifier and the frontier, at a small project.
use gddp_runtime.Prelude.{
  Option, ◌≤◌, String, true, false, some, List, [], ◌∷◌, ◌++◌, any, All, ok, ◌≡◌, ◌↔◌, ◌⊎◌, refl,
}
use gddp_runtime.Tests.Samples.{project, landing, job_in, node_cli, new_event_id, gate_host, opened}
use gddp_runtime.Prelude.Text.{codes}
use gddp_runtime.Heartbeat.Graph.{NodeData, node_status, is_satisfied}
use gddp_runtime.Heartbeat.Store.{Db, EventRow, at, Classification, find}
use gddp_runtime.Heartbeat.Scope.{check_scope, safe, is_active_job}
use gddp_runtime.Heartbeat.Scope.Gate.{check_scope-safe_iff}
use gddp_runtime.Heartbeat.Classifier.{
  classify, named_node, preselected, search_tag, tag_sources, same_codes, is_separator, is_tag_char,
  executor_allowed,
}
use gddp_runtime.Heartbeat.Classifier.Tagged.{IsNamed, IsTag, classify-tagged}
use gddp_runtime.Heartbeat.Classifier.Chosen.{IsBy, Asks}
use gddp_runtime.Heartbeat.Frontier.{World, advance_frontier, dispatch_event}
use gddp_runtime.Heartbeat.Frontier.Advance.{IsUnblocked, Asked, advance_frontier_lem}
use gddp_runtime.Heartbeat.Bootstrap.{HistoryRecord}
use gddp_runtime.Heartbeat.Handover.{IsDefault, dispatch_event-classified}
use gddp_runtime.Heartbeat.Policy.{
  mapping, absent, integer, MissionPolicy, select_ready_subgraph, parse_execution_policy, take,
  positive, fields_of,
}
use gddp_runtime.Heartbeat.Policy.Sizing.{select_ready_subgraph_lem}
use gddp_runtime.Prelude.Int.{pos}

abbrev db : Db
db = record {
  events = [];
  jobs = job_in "awaiting_review" ∷ [];
  queue_records = [];
  sessions = [];
  results = [];
}

abbrev world : World
world = record {
  rows = project.nodes;
  docs =
      ("landing", record { human_gate = false; depends_on = "setup" ∷ []; status = "pending" })
      ∷ [];
  db = db;
  gates = [];
}

check_scope-safe_iff_example : (check_scope landing "site" db (some project) ≡ safe) ↔ (
    (any (is_active_job "site" "landing") db.jobs ≡ false)
    × All (λ d. is_satisfied (node_status project.nodes d) ≡ true) ("setup" ∷ []))
check_scope-safe_iff_example = check_scope-safe_iff landing "site" db project

advance_frontier_lem_example :
    All
      (λ id.
        IsUnblocked project world id
        × Asked project (advance_frontier node_cli new_event_id gate_host 7 project world).0 id)
      (advance_frontier node_cli new_event_id gate_host 7 project world).1
    × ((advance_frontier node_cli new_event_id gate_host 7 project world).0.db.jobs ≡ db.jobs)
    × ((more : List EventRow) × ((advance_frontier node_cli new_event_id gate_host 7 project
            world).0.db.events
          ≡ [] ++ more))
    × ((true ≡ true)
        ⊎ (advance_frontier node_cli new_event_id gate_host 7 project world ≡ (world, [])))
advance_frontier_lem_example = advance_frontier_lem node_cli new_event_id gate_host 7 project world

landing-IsTag : IsTag (codes "landing")
unfolding is_separator is_tag_char
landing-IsTag = (refl, (refl, (refl, (refl, (refl, (refl, (refl, (refl, tt))))))))

landing_found : find (named_node (codes "landing")) (landing ∷ []) ≡ some landing
unfolding find named_node same_codes
landing_found = refl

abbrev to_jules : Classification
to_jules = record { matched_node_id = "landing"; executor_recommendation = "jules" }

dispatch_event-classified_example :
    (classify (dispatch_event new_event_id 7 project "landing") (landing ∷ []) ≡ some to_jules) ↔ (
      ("landing" ≡ landing.node_id)
      × ((choice : Option String) × IsDefault (some "jules") choice × IsBy landing choice "jules"))
dispatch_event-classified_example =
    dispatch_event-classified new_event_id 7 project (landing ∷ []) "landing" landing to_jules
      landing-IsTag landing_found

abbrev to_codex : Classification
to_codex = record { matched_node_id = "landing"; executor_recommendation = "codex" }

opened_classified : classify opened (landing ∷ []) ≡ some to_codex
unfolding classify search_tag find preselected executor_allowed
opened_classified = refl

classify-tagged_example :
    (opened.event_type ≡ "issue.opened")
    × ((n : NodeData) × ("landing" ≡ n.node_id)
        × IsNamed (landing ∷ []) (tag_sources opened) n
        × ((choice : Option String) × Asks opened.routing choice × IsBy n choice "codex"))
classify-tagged_example = classify-tagged opened (landing ∷ []) to_codex opened_classified

abbrev eligible : List String
eligible = "a" ∷ "b" ∷ "c" ∷ []

abbrev chosen : List String
chosen = "a" ∷ "b" ∷ []

selected : select_ready_subgraph eligible (mapping (integer (pos 2)) absent) ≡ ok chosen
unfolding select_ready_subgraph parse_execution_policy take positive fields_of
selected = refl

select_ready_subgraph_lem_example :
    (p : MissionPolicy) × (parse_execution_policy (mapping (integer (pos 2)) absent) ≡ ok p)
    × (2 ≤ p.mission_engagement_size)
    × (2 ≤ p.mission_max_pairs)
    × ((rest : List String) × (chosen ++ rest ≡ eligible))
    × (true ≡ true)
select_ready_subgraph_lem_example =
    select_ready_subgraph_lem eligible chosen (mapping (integer (pos 2)) absent) selected

-- An operator made the node ready at 9, after its job of 1.
abbrev reasserted : List HistoryRecord
reasserted = record { kind = some "graph"; to_status = some "ready"; ts = at 9 } ∷ []
