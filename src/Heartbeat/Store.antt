-- ===== src/Heartbeat/Store.antt =====
-- The runtime's SQLite tables (scripts/init_db.py) as scripts/runtime/heartbeat reads and writes
-- them. A table is the list of its rows; a nullable column is optional; a time is a number.
pub mod Rows
use gddp_runtime.Verification.Retry.{IntegrityJson, CriteriaFinding}
use gddp_runtime.Prelude.{
  false, str_eq, ℕ, String, Bool, Option, none, some, List, [], ◌∷◌, map, keep, length,
  if◌then◌else◌, or_else,
}

-- A timestamp column that others write too: blank, no ISO time, or a time.
pub data Stamp : Type 0 where
  blank malformed : Stamp
  at : ℕ → Stamp

-- The JSON of `events.routing`.
pub data Routing : Type 0 where
  unparseable : Routing
  selected_executor : Option String → Routing

-- The saved payload of an event, with the keys that are read.
pub data Payload : Type 0 where
  no_path unreadable : Payload
  saved : (title body : Option String) (merged : Bool) → Payload

pub record Classification : Type 0 where
  pub matched_node_id : String
  pub executor_recommendation : String

-- The JSON of `events.classification`.
pub data ClassificationCell : Type 0 where
  unset : ClassificationCell
  classified : Classification → ClassificationCell
  blocked_reason : String → ClassificationCell

pub record EventRow : Type 0 where
  pub event_id : String
  pub received_at : Stamp
  pub source : String
  pub event_type : String
  pub url : Option String
  pub branch : Option String
  pub project_id : Option String
  pub repo : Option String
  pub status : String
  pub scope_status : String
  pub classification : ClassificationCell
  pub routing : Option Routing
  pub raw_payload : Payload
  pub claimed_at : Option ℕ

pub record JobRow : Type 0 where
  pub job_id : String
  pub created_at : Stamp
  pub event_id : String
  pub project_id : String
  pub repo : String
  pub node_id : String
  pub job_type : String
  pub executor : String
  pub queue_state : String
  pub title : String
  pub goal : String
  pub why : String
  pub constraints : List String
  pub acceptance_criteria : List String
  pub priority : String
  pub status : String
  pub attempt : ℕ
  pub max_attempts : ℕ
  pub plumbing_attempt : ℕ
  pub artifacts_dir : String
  pub required_artifacts : List String
  pub previous_findings : Option String
  pub expected_base_commit_sha : Option String

pub record QueueRow : Type 0 where
  pub queue_item_id : String
  pub job_id : String
  pub queue : String
  pub available_at : ℕ

pub record SessionRow : Type 0 where
  pub session_db_id : String
  pub job_id : String
  pub executor : String
  pub session_id : String
  pub execution_attempt_id : String
  pub attempt_index : ℕ
  pub state : String
  pub expected_base_commit_sha : Option String
  pub created_at : ℕ
  pub updated_at : ℕ
  pub error : Option String
  pub result_commit_sha : Option String
  pub patch_path : Option String
  pub attempt_dir : Option String
  pub completion_id : Option String
  pub completion_digest_sha256 : Option String
  pub completion_quarantine_reason : Option String
  pub evidence_manifest_path : Option String

-- The keys of a stored verification that are read, and the JSON of `results.acceptance_check`.
pub record IntegritySummary : Type 0 where
  pub verdict : String
  pub body : IntegrityJson

pub record StoredCheck : Type 0 where
  pub receipt_path : Option String
  pub verification_status : String
  pub verdict : String
  pub integrity : Option IntegritySummary
  pub criteria_findings : List CriteriaFinding

pub data AcceptanceCell : Type 0 where
  nothing not_json not_an_object : AcceptanceCell
  with_check : StoredCheck → AcceptanceCell

pub record ResultRow : Type 0 where
  pub result_id : String
  pub job_id : String
  pub executor : String
  pub received_at : String
  pub outcome : String
  pub status : String
  pub patch_path : Option String
  pub summary_path : Option String
  pub logs_path : Option String
  pub acceptance_check : AcceptanceCell

pub record Db : Type 0 where
  pub events : List EventRow
  pub jobs : List JobRow
  pub queue_records : List QueueRow
  pub sessions : List SessionRow
  pub results : List ResultRow

-- `value = ?` of a column that may be null
abbrev pub column_is : Option String → String → Bool
column_is none v = false
column_is (some c) v = str_eq c v

-- `UPDATE … SET … WHERE …`, its row count, and `SELECT … LIMIT 1`.
module _ {A : Type 0} where
  unfoldable pub set_if : (A → Bool) → (A → A) → A → A
  set_if p f a = if p a then f a else a

  abbrev pub update : (A → Bool) → (A → A) → List A → List A
  update p f rows = map (set_if p f) rows

  abbrev pub count : (A → Bool) → List A → ℕ
  count p rows = length (keep p rows)

  unfoldable pub find : (A → Bool) → List A → Option A
  find p [] = none
  find p (a ∷ rows) = or_else (if p a then some a else none) (find p rows)

-- `ORDER BY …`, for the order that `before` tells.
module _ {A : Type 0} (before : A → A → Bool) where
  unfoldable pub place : A → List A → List A
  place a [] = a ∷ []
  place a (x ∷ xs) = let rest = place a xs in if before x a then x ∷ rest else a ∷ x ∷ xs

  unfoldable pub order_by : List A → List A
  unfolding place
  order_by [] = []
  order_by (a ∷ rest) = place a (order_by rest)
