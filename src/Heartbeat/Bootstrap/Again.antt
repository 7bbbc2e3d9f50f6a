-- ===== src/Heartbeat/Bootstrap/Again.antt =====
-- When a ready node is dispatched again.
use gddp_runtime.Prelude.{ℕ, ◌<◌, Bool, true, false, Option, none, some, List, any, All, ◌≡◌, ◌↔◌}
use gddp_runtime.Heartbeat.Store.{Stamp, blank, malformed, at}
use gddp_runtime.Heartbeat.Bootstrap.{LastAttempt, unparseable, no_stamp, last}

-- A time before `ready`; a blank column says nothing, and a malformed one everything.
abbrev pub IsBefore : ℕ → Stamp → Type 0
IsBefore ready blank = Unit
IsBefore ready malformed = ⊥
IsBefore ready (at t) = t < ready

abbrev pub is_time : Stamp → Bool
is_time blank = false
is_time malformed = false
is_time (at t) = true

-- What the latest attempt says of the times that it was found in.
abbrev Describes : ℕ → LastAttempt → List Stamp → Type 0
Describes ready unparseable stamps = All (IsBefore ready) stamps → ⊥
Describes ready no_stamp stamps = All (IsBefore ready) stamps × (any is_time stamps ≡ false)
Describes ready (last u) stamps =
    (any is_time stamps ≡ true) × (All (IsBefore ready) stamps ↔ (u < ready))

-- A human's `ready`, later than each of the attempts, one of which has a time.
abbrev pub IsReasserted : List Stamp → Option ℕ → Type 0
IsReasserted stamps none = ⊥
IsReasserted stamps (some ready) = All (IsBefore ready) stamps × (any is_time stamps ≡ true)
