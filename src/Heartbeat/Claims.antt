-- ===== src/Heartbeat/Claims.antt =====
-- scripts/runtime/heartbeat/runner.py, the events that a planning may take and the capacity.
use Prim.Native.Nat.{Ordering}
use Prim.Native.String.{compare as compare_text}
use gddp_runtime.Prelude.{
  ℕ, zero, suc, String, Bool, true, false, ◌&&◌, ◌||◌, not, Option, none, some, List, [], ◌∷◌, mem,
  ltb, leb, ◌==◌, str_eq, is_some, Result, ok, err,
}
use gddp_runtime.Prelude.Text.{codes, is_code}
use gddp_runtime.Prelude.Int.{pos, negsuc}
use gddp_runtime.Heartbeat.Policy.{Configured, absent, other, boolean, integer}
use gddp_runtime.Heartbeat.Store.{
  column_is, Db, EventRow, JobRow, Stamp, Payload, no_path, unreadable, saved, update, count,
}

-- Python's `part in text`, on code points.
starts_with : List ℕ → List ℕ → Bool
starts_with [] text = true
starts_with (p ∷ part) [] = false
starts_with (p ∷ part) (c ∷ text) = is_code p c && starts_with part text

unfoldable pub contains : List ℕ → List ℕ → Bool
unfolding starts_with
contains part [] = starts_with part []
contains part (c ∷ text) = starts_with part (c ∷ text) || contains part text

abbrev has_merged : Payload → Bool
has_merged no_path = false
has_merged unreadable = false
has_merged (saved title body merged) = merged

unfoldable pub is_merged_pr_event : EventRow → Bool
unfolding contains
is_merged_pr_event e =
    contains (codes "pull_request") (codes e.event_type) && has_merged e.raw_payload

-- The `ValueError` of a capacity that is no positive integer.
pub data CapacityError : Type 0 where
  capacity_invalid : CapacityError

unfoldable pub configured_job_capacity : Configured → Result CapacityError (Option ℕ)
configured_job_capacity absent = ok none
configured_job_capacity other = err capacity_invalid
configured_job_capacity (boolean b) = err capacity_invalid
configured_job_capacity (integer (negsuc n)) = err capacity_invalid
configured_job_capacity (integer (pos zero)) = err capacity_invalid
configured_job_capacity (integer (pos (suc n))) = ok (some (suc n))

abbrev pub capacity_statuses : List String
capacity_statuses = "ready" ∷ "running" ∷ []

unfoldable pub takes_capacity : String → JobRow → Bool
takes_capacity repo j =
    str_eq j.repo repo && (mem j.status capacity_statuses || mem j.queue_state capacity_statuses)

unfoldable pub active_job_count : Db → String → ℕ
unfolding takes_capacity
active_job_count db repo = count (takes_capacity repo) db.jobs

is_stale : ℕ → Option ℕ → Bool
is_stale cutoff none = false
is_stale cutoff (some t) = ltb t cutoff

-- `status = 'received' OR (status = 'claimed' AND claimed_at < ?)`
unfoldable pub is_claimable : ℕ → EventRow → Bool
unfolding is_stale
is_claimable cutoff e =
    str_eq e.status "received" || (str_eq e.status "claimed" && is_stale cutoff e.claimed_at)

-- An event of the project, or one of its repository that no project owns.
unfoldable pub is_own_event : String → String → EventRow → Bool
is_own_event project repo e =
    column_is e.project_id project || (not (is_some e.project_id) && column_is e.repo repo)

-- `ORDER BY received_at, event_id`
unfoldable pub received_before : (Stamp → Stamp → Ordering) → EventRow → EventRow → Bool
received_before text_order a b = elim (text_order a.received_at b.received_at) [
  | Ordering.lt ↦ true
  | Ordering.eq ↦ elim (compare_text a.event_id b.event_id) [ Ordering.lt ↦ true | _ ↦ false ]
  | Ordering.gt ↦ false
]

unfoldable pub claims : ℕ → String → EventRow → Bool
unfolding is_claimable
claims cutoff id e = str_eq e.event_id id && is_claimable cutoff e

unfoldable pub claim_event : (cutoff now : ℕ) (project id : String) → Db → Db × Bool
unfolding claims
claim_event cutoff now project id db = (
  record db {
    events =
        update (claims cutoff id)
          (λ e. record e { status = "claimed"; claimed_at = some now; project_id = some project })
          db.events;
  },
  count (claims cutoff id) db.events == 1,
)

-- The update that gives a claimed event back.
unfoldable pub release_event : String → Db → Db
release_event id db = record db {
  events =
      update (λ e. str_eq e.event_id id && str_eq e.status "claimed")
        (λ e. record e { status = "received"; claimed_at = none }) db.events;
}

unfoldable pub at_capacity : Option ℕ → ℕ → Bool
at_capacity none active = false
at_capacity (some cap) active = leb cap active
