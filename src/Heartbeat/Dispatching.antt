-- ===== src/Heartbeat/Dispatching.antt =====
-- scripts/runtime/heartbeat/runner.py, the dispatch and recording phases.
pub mod Covering
pub mod Groups
use Prim.Native.String.{◌++◌ as text_append}
use gddp_runtime.Prelude.{
  min, ◌*◌, ℕ, zero, suc, ◌+◌, ◌-◌, ◌≤◌, ◌<◌, String, Bool, true, false, ◌&&◌, ◌||◌, not, Option,
  none, some, List, [], ◌∷◌, ◌++◌, map, any, all, keep, All, nonempty, length, mem, if◌then◌else◌,
  ltb, leb, ◌==◌, str_eq, eq_iff, eq_refl, or_else, is_some, Result, ok, err, ◌>>=◌, ◌>>◌, guard,
  ◌≡◌, ◌≢◌, ◌↔◌, ◌⊎◌, inl, inr, refl, sym, ap, subst, ◌∙◌, arith, Bool-cases, Option-cases,
}
use gddp_runtime.Heartbeat.Policy.{
  RawPolicy, PolicyError, MissionPolicy, parse_execution_policy, take, drop,
}
use gddp_runtime.Heartbeat.Store.{Db}
use gddp_runtime.Heartbeat.Recorder.{mark_event_mapped, mark_job_running, mark_job_failed}
use gddp_runtime.Heartbeat.Sessions.{filled, Finalization, finalize_executor_session_dispatch}
use gddp_runtime.Heartbeat.Planning.{PlannedDispatch}

-- A set of jobs that one worker dispatches, in one engagement or, where it is false, one job alone.
pub record Group : Type 0 where
  pub members : List PlannedDispatch
  pub engagement : Bool

pub record GroupKey : Type 0 where
  pub executor : String
  pub expected_base_commit_sha : Option String

unfoldable pub key_of : PlannedDispatch → GroupKey
key_of p = record {
  executor = p.job.executor;
  expected_base_commit_sha = p.job.expected_base_commit_sha;
}

same_base : Option String → Option String → Bool
same_base none none = true
same_base (some a) (some b) = str_eq a b
same_base _ _ = false

unfoldable pub same_key : GroupKey → GroupKey → Bool
unfolding same_base
same_key a b =
    str_eq a.executor b.executor && same_base a.expected_base_commit_sha b.expected_base_commit_sha

-- `engagement_groups.setdefault(group_key, []).append(planned)`
unfoldable pub append_to :
    GroupKey
    → PlannedDispatch
    → List (GroupKey × List PlannedDispatch)
    → List (GroupKey × List PlannedDispatch)
unfolding same_key
append_to key p [] = (key, p ∷ []) ∷ []
append_to key p ((k, ps) ∷ rest) =
    let more = append_to key p rest in
    if same_key k key then (k, ps ++ p ∷ []) ∷ rest else (k, ps) ∷ more

-- The slices of a list from each multiple of the limit, as many as the fuel allows.
unfoldable pub slices : (fuel limit : ℕ) → List PlannedDispatch → List (List PlannedDispatch)
unfolding take drop
slices zero limit xs = []
slices (suc fuel) limit [] = []
slices (suc fuel) limit (x ∷ xs) = take limit (x ∷ xs) ∷ slices fuel limit (drop limit (x ∷ xs))

abbrev engagement_of : List PlannedDispatch → Group
engagement_of ps = record { members = ps; engagement = true }

unfoldable pub sliced : ℕ → List (GroupKey × List PlannedDispatch) → List Group
unfolding slices
sliced limit [] = []
sliced limit ((k, ps) ∷ rest) = map engagement_of (slices (length ps) limit ps) ++ sliced limit rest

unfoldable pub engagement_node_limit : MissionPolicy → ℕ
engagement_node_limit p = 2 * min p.mission_engagement_size p.mission_max_pairs

module _ (supports : String → Bool) where
  unfoldable pub singles : List PlannedDispatch → List Group
  singles [] = []
  singles (p ∷ ps) =
      let rest = singles ps in
      if supports p.job.executor
      then rest
      else record { members = p ∷ []; engagement = false } ∷ rest

  unfoldable pub engagements :
      List PlannedDispatch
      → List (GroupKey × List PlannedDispatch)
      → List (GroupKey × List PlannedDispatch)
  unfolding append_to key_of
  engagements [] groups = groups
  engagements (p ∷ ps) groups =
      engagements ps (if supports p.job.executor then append_to (key_of p) p groups else groups)

  -- The groups that are submitted to the workers.
  unfoldable pub group_dispatches :
      RawPolicy → List PlannedDispatch → Result PolicyError (List Group)
  unfolding singles engagements sliced engagement_node_limit
  group_dispatches policy planned = do
    p ← parse_execution_policy policy
    ok (singles planned ++ sliced (engagement_node_limit p) (engagements planned []))
