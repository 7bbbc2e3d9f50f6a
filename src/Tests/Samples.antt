-- ===== src/Tests/Samples.antt =====
-- A small project, with its nodes, jobs and events, for the tests.
use Prim.Native.String.{◌++◌ as text_append}
use gddp_runtime.Prelude.{String, true, none, some, [], ◌∷◌, refl, map, if◌then◌else◌, str_eq}
use gddp_runtime.Heartbeat.Graph.{NodeData, ProjectGraph}
use gddp_runtime.Heartbeat.Store.{EventRow, JobRow, at, selected_executor, unset, no_path}
use gddp_runtime.Heartbeat.Gates.{GateHost}
use gddp_runtime.Heartbeat.Frontier.{NodeCli}

abbrev pub project : ProjectGraph
project = record {
  project_id = "site";
  project_name = "Site";
  repo = "acme/site";
  nodes =
      record { id = "setup"; status = some "complete" }
      ∷ record { id = "landing"; status = some "pending" }
      ∷ [];
  execution_policy = record {
    mission_engagement_size = 1;
    mission_max_pairs = 5;
    frontier_auto_advance = true;
    default_executor = some "jules";
    max_concurrent_jobs = none;
  };
}

abbrev pub landing : NodeData
landing = record {
  node_id = "landing";
  title = "Landing page";
  status = "ready";
  type = "feature";
  why = "";
  depends_on = "setup" ∷ [];
  acceptance_criteria = [];
  constraints = [];
  allowed_execution_modes = "agent" ∷ [];
  required_artifacts = [];
  priority = "medium";
  unlocks = [];
}

abbrev pub job_in : String → JobRow
job_in status = record {
  job_id = "job_1";
  created_at = at 1;
  event_id = "evt_1";
  project_id = "site";
  repo = "acme/site";
  node_id = "setup";
  job_type = "execute";
  executor = "jules";
  queue_state = status;
  title = "Set up";
  goal = "";
  why = "";
  constraints = [];
  acceptance_criteria = [];
  priority = "medium";
  status = status;
  attempt = 0;
  max_attempts = 3;
  plumbing_attempt = 0;
  artifacts_dir = "artifacts/job_1";
  required_artifacts = [];
  previous_findings = none;
  expected_base_commit_sha = none;
}

abbrev pub node_cli : NodeCli
node_cli = record {
  replace_node_status = λ d status. record d { status = status };
  replace_index_status = λ rows node status.
      map (λ n. if str_eq n.id node then record n { status = some status } else n) rows;
  keeps_gate = λ d status. refl;
  keeps_depends_on = λ d status. refl;
}

abbrev pub new_event_id : String → String
new_event_id node = text_append "evt_" node

abbrev pub gate_host : GateHost
gate_host = record {
  resolved = true;
  latest_receipt = λ dep. none;
  sha256 = λ path. none;
  now = 7;
  written = λ dep. true;
}

abbrev pub opened : EventRow
opened = record {
  event_id = "evt_2";
  received_at = at 2;
  source = "github";
  event_type = "issue.opened";
  url = some "https://tracker/node: landing";
  branch = none;
  project_id = some "site";
  repo = some "acme/site";
  status = "received";
  scope_status = "pending";
  classification = unset;
  routing = some (selected_executor (some "codex"));
  raw_payload = no_path;
  claimed_at = none;
}
