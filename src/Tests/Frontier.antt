-- ===== src/Tests/Frontier.antt =====
-- The theorems on gates, the second pass, promotions and continuity, at a small project.
use gddp_runtime.Prelude.{
  String, true, false, Option, none, some, List, [], ◌∷◌, str_eq, ◌≡◌, ◌≢◌, ◌↔◌, ◌⊎◌, inl, inr,
  refl,
}
use gddp_runtime.Tests.Samples.{project, new_event_id, gate_host}
use gddp_runtime.Heartbeat.Gates.{GateDir, undecodable, write_gate, revoke_gate}
use gddp_runtime.Heartbeat.Gates.Trip.{IsWritten, IsRevoked, read_gate_lem}
use gddp_runtime.Heartbeat.Frontier.{World}
use gddp_runtime.Heartbeat.Bootstrap.{HistoryRecord, ensure_ready_frontier_events}
use gddp_runtime.Heartbeat.Bootstrap.Fixpoint.{ensure_ready_frontier_events-fixpoint}
use gddp_runtime.Heartbeat.Provisional.{StoredVerdict, GraphWrites}
use gddp_runtime.Heartbeat.Continuity.{
  MarkerJson, not_json, TurnHost, resume, choose_continuity, read_resume_request,
}
use gddp_runtime.Heartbeat.Continuity.Granted.{IsGranted, choose_continuity_lem}

abbrev sha256 : String → Option String
sha256 path = some "00ff"

abbrev kept_gates : GateDir
kept_gates = ("setup", undecodable) ∷ []

read_gate_lem_example :
    IsWritten "setup" "landing" kept_gates true sha256 7
      (some "r.json")
      (write_gate true sha256 7 "setup" (some "r.json") kept_gates)
    × IsRevoked "setup" "landing" kept_gates true
        ("landing" ∷ "setup" ∷ [])
        (revoke_gate true "setup" kept_gates)
read_gate_lem_example =
    read_gate_lem "setup" "landing" kept_gates true true sha256 7 (some "r.json")
      ("landing" ∷ "setup" ∷ []) (inr (inl refl))

-- The landing page is ready, and was never dispatched.
abbrev world : World
world = record {
  rows = project.nodes;
  docs =
      ("landing", record { human_gate = false; depends_on = "setup" ∷ []; status = "ready" }) ∷ [];
  db = record { events = []; jobs = []; queue_records = []; sessions = []; results = [] };
  gates = [];
}

abbrev history : String → Option (List HistoryRecord)
history node = none

ensure_ready_frontier_events-fixpoint_example :
    ensure_ready_frontier_events new_event_id gate_host 7 project history
      (ensure_ready_frontier_events new_event_id gate_host 7 project history world).0
    ≡ ((ensure_ready_frontier_events new_event_id gate_host 7 project history world).0, [])
ensure_ready_frontier_events-fixpoint_example =
    ensure_ready_frontier_events-fixpoint new_event_id gate_host 7 project history world

abbrev passing : StoredVerdict
passing = record {
  verdict = some "pass";
  intent_preserved = some true;
  graph_integrity_preserved = some true;
  required_human_review = false;
  receipt_path = some "r.json";
}

abbrev index_fails : GraphWrites
index_fails = record { rewritten = true; node_written = true; index_written = false }

abbrev turn : TurnHost
turn = record {
  supports_resume = true;
  cwd = some "/src/site";
  host = "big-pi";
  same_path = λ left right. str_eq left right;
}

abbrev parse_marker : String → MarkerJson
parse_marker text = not_json

choose_continuity_lem_example :
    (((choose_continuity parse_marker true turn none (some " chat-7 ")).0 ≡ resume "chat-7")
      ↔ IsGranted turn none (read_resume_request parse_marker (some " chat-7 ")) "chat-7")
    × (((choose_continuity parse_marker true turn none (some " chat-7 ")).0 ≢ resume "chat-7")
        ⊎ ((choose_continuity parse_marker true turn none
              (choose_continuity parse_marker true turn none (some " chat-7 ")).1).0
            ≢ resume "chat-7"))
choose_continuity_lem_example =
    choose_continuity_lem parse_marker true turn turn none none (some " chat-7 ") "chat-7" "chat-7"
