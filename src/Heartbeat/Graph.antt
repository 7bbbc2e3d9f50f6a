-- ===== src/Heartbeat/Graph.antt =====
-- scripts/runtime/heartbeat/graph_reader.py: the project graph and its nodes.
use gddp_runtime.Prelude.{
  ℕ, String, Bool, false, Option, none, some, List, [], ◌∷◌, mem, if◌then◌else◌, str_eq, or_else,
}

-- A summary row of project.yaml.
pub record NodeRow : Type 0 where
  pub id : String
  pub status : Option String

-- Mission sizing and the other keys of `execution_policy` that the heartbeat reads.
pub record ExecutionPolicy : Type 0 where
  pub mission_engagement_size : ℕ
  pub mission_max_pairs : ℕ
  pub frontier_auto_advance : Bool
  pub default_executor : Option String
  pub max_concurrent_jobs : Option ℕ

pub record ProjectGraph : Type 0 where
  pub project_id : String
  pub project_name : String
  pub repo : String
  pub nodes : List NodeRow
  pub execution_policy : ExecutionPolicy

pub record NodeData : Type 0 where
  pub node_id : String
  pub title : String
  pub status : String
  pub type : String
  pub why : String
  pub depends_on : List String
  pub acceptance_criteria : List String
  pub constraints : List String
  pub allowed_execution_modes : List String
  pub required_artifacts : List String
  pub priority : String
  pub unlocks : List String

-- `{n["id"]: n for n in nodes}[id]`: the last row of a name counts.
unfoldable pub find_row : String → List NodeRow → Option NodeRow
find_row id [] = none
find_row id (n ∷ rest) = or_else (find_row id rest) (if str_eq n.id id then some n else none)

abbrev pub status_of : Option NodeRow → Option String
status_of none = none
status_of (some n) = n.status

-- `status_by_id.get(id)`
unfoldable pub node_status : List NodeRow → String → Option String
unfolding find_row
node_status nodes id = status_of (find_row id nodes)

-- `status in SATISFIED_DEP_STATUSES`
abbrev pub is_satisfied : Option String → Bool
is_satisfied none = false
is_satisfied (some s) = mem s ("complete" ∷ "provisional" ∷ [])
