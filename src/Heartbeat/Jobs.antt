-- ===== src/Heartbeat/Jobs.antt =====
-- scripts/runtime/heartbeat/job_factory.py: the job of a node.
use Prim.Native.String.{◌++◌ as text_append}
use gddp_runtime.Prelude.{String, none}
use gddp_runtime.Prelude.Text.{strip}
use gddp_runtime.Heartbeat.Graph.{NodeData}
use gddp_runtime.Heartbeat.Store.{EventRow, JobRow, at}
use gddp_runtime.Heartbeat.Sessions.{Tick}

-- `runtime_root` is the text of the runtime's directory.
unfoldable pub build_job :
    Tick → NodeData → EventRow → (project_id repo runtime_root executor : String) → JobRow
build_job t node event project_id repo root executor =
    let id = text_append "job_" t.ts in
    record {
      job_id = id;
      created_at = at t.now;
      event_id = event.event_id;
      project_id = project_id;
      repo = repo;
      node_id = node.node_id;
      job_type = "implementation";
      executor = executor;
      queue_state = "ready";
      title = node.title;
      goal = text_append "Produce a reviewable result for node " node.node_id;
      why = strip node.why;
      constraints = node.constraints;
      acceptance_criteria = node.acceptance_criteria;
      priority = node.priority;
      status = "ready";
      attempt = 0;
      max_attempts = 3;
      plumbing_attempt = 0;
      artifacts_dir = text_append root (text_append "/jobs/" (text_append id "/"));
      required_artifacts = node.required_artifacts;
      previous_findings = none;
      expected_base_commit_sha = none;
    }
