-- ===== src/Tests/Planning.antt =====
-- The theorems on planning, dispatch and recording, at one event of a small project.
use Prim.Native.Nat.{Ordering}
use Prim.Native.String.{◌++◌ as text_append}
use gddp_runtime.Prelude.{
  ℕ, ◌+◌, ◌≤◌, String, Bool, true, false, none, some, List, [], ◌∷◌, ◌++◌, map, any, All, length,
  if◌then◌else◌, str_eq, Result, ok, err, ◌≡◌, ◌⊎◌, refl, arith,
}
use gddp_runtime.Tests.Samples.{project, landing, opened, job_in}
use gddp_runtime.Heartbeat.Policy.{
  fields_of, positive, take, drop, absent, mapping, MissionPolicy, parse_execution_policy,
}
use gddp_runtime.Heartbeat.Dispatching.{
  Group, group_dispatches, engagement_node_limit, singles, engagements, append_to, key_of, same_key,
  sliced, slices,
}
use gddp_runtime.Heartbeat.Dispatching.Covering.{members_of}
use gddp_runtime.Heartbeat.Dispatching.Groups.{IsGroup, group_dispatches_lem}
use gddp_runtime.Heartbeat.Recording.{DispatchResult, collect_outcomes, record_outcomes}
use gddp_runtime.Heartbeat.Recording.Settled.{record_outcomes-IsSettled}
use gddp_runtime.Heartbeat.Claims.{
  claim_event, at_capacity, is_merged_pr_event, contains, active_job_count, is_own_event,
  is_claimable,
}
use gddp_runtime.Heartbeat.Classifier.{classify, search_tag, preselected, executor_allowed}
use gddp_runtime.Heartbeat.Chaining.{chained_base, provisional_deps}
use gddp_runtime.Heartbeat.Graph.{node_status}
use gddp_runtime.Heartbeat.Store.{find, Db, EventRow, Stamp, SessionRow, count, order_by}
use gddp_runtime.Heartbeat.Scope.{check_scope, is_active_job, dep_status}
use gddp_runtime.Heartbeat.Recorder.{mark_event_classified}
use gddp_runtime.Verification.Admission.{missing}
use gddp_runtime.Heartbeat.Sessions.{is_dispatching}
use gddp_runtime.Heartbeat.Planning.{Plan, PlannedDispatch, pending_events, plan_dispatches}
use gddp_runtime.Heartbeat.Planning.Reservations.{
  Reserves, IsSingle, IsOpened, plan_dispatches-Reserves, plan_dispatches-bounded,
  plan_dispatches-IsSingle, plan_dispatches-IsOpened,
}
use mathlib.Core.List.Perm as Perm

abbrev stamp_order : Stamp → Stamp → Ordering
stamp_order a b = Ordering.eq

abbrev plan : Plan ℕ
plan = record {
  project_id = "site";
  repo = "acme/site";
  repo_path = some "/src/site";
  runtime_root = "/var/runtime";
  ready_nodes = landing ∷ [];
  graph = some project;
  missing_graph = "project.yaml not found";
  max_concurrent_jobs = some 2;
  expected_base_commit_sha = none;
  head_sha = some "b0";
  stale_cutoff = 5;
  tick = λ event. record { ts = text_append "20260101" event; now = 9 };
  text_order = stamp_order;
  preflight_error = λ executor. none;
  sources = record {
    commit_exists = λ path commit. true;
    is_ancestor = λ path commit head. false;
    receipt_file = λ path. missing;
  };
}

abbrev db : Db
db = record { events = opened ∷ []; jobs = []; queue_records = []; sessions = []; results = [] }

abbrev no_return : EventRow → Db → Db × Bool
no_return event db = (db, true)

opened_unmerged : All (λ e. is_merged_pr_event e ≡ false) (pending_events plan db)
unfolding pending_events is_merged_pr_event contains is_own_event is_claimable order_by
opened_unmerged = (refl, tt)

plan_dispatches-Reserves_example :
    Reserves plan [] [] (plan_dispatches plan no_return db).1 (plan_dispatches plan no_return db).0
plan_dispatches-Reserves_example = plan_dispatches-Reserves plan no_return db opened_unmerged

plan_dispatches-bounded_example :
    (active_job_count (plan_dispatches plan no_return db).0 "acme/site"
      ≡ active_job_count db "acme/site" + length (plan_dispatches plan no_return db).1)
    × (((plan_dispatches plan no_return db).1 ≡ [])
        ⊎ (active_job_count (plan_dispatches plan no_return db).0 "acme/site" ≤ 2))
plan_dispatches-bounded_example = plan_dispatches-bounded plan no_return db opened_unmerged 2 refl

no_jobs-IsSingle : IsSingle plan []
no_jobs-IsSingle node = omega arith

plan_dispatches-IsSingle_example : IsSingle plan (plan_dispatches plan no_return db).0.jobs
plan_dispatches-IsSingle_example =
    plan_dispatches-IsSingle plan no_return db opened_unmerged no_jobs-IsSingle

plan_dispatches-IsOpened_example :
    ((plan_dispatches plan no_return db).0.jobs
      ≡ [] ++ map (λ p. p.job) (plan_dispatches plan no_return db).1)
    × ((opened : List SessionRow) × ((plan_dispatches plan no_return db).0.sessions ≡ [] ++ opened)
        × IsOpened plan (plan_dispatches plan no_return db).1 opened)
plan_dispatches-IsOpened_example = plan_dispatches-IsOpened plan no_return db opened_unmerged

planned_one : length (plan_dispatches plan no_return db).1 ≡ 1
unfolding plan_dispatches pending_events order_by is_own_event is_claimable claim_event
    is_merged_pr_event classify search_tag find preselected executor_allowed chained_base
    provisional_deps node_status at_capacity active_job_count check_scope mark_event_classified
    is_active_job dep_status
planned_one = refl

abbrev planned : String → String → PlannedDispatch
planned id executor = record {
  event_id = text_append "evt_" id;
  classification = record { matched_node_id = id; executor_recommendation = executor };
  job = record (job_in "ready") { job_id = id; executor = executor };
  session_db_id = text_append "ses_" id;
}

abbrev three : List PlannedDispatch
three = planned "a" "mission" ∷ planned "b" "jules" ∷ planned "c" "mission" ∷ []

abbrev takes_engagements : String → Bool
takes_engagements executor = str_eq executor "mission"

abbrev alone : Group
alone = record { members = planned "b" "jules" ∷ []; engagement = false }

abbrev together : Group
together = record {
  members = planned "a" "mission" ∷ planned "c" "mission" ∷ [];
  engagement = true;
}

grouped :
    group_dispatches takes_engagements (mapping absent absent) three ≡ ok (alone ∷ together ∷ [])
unfolding group_dispatches parse_execution_policy positive fields_of take drop singles engagements
    append_to key_of same_key sliced slices engagement_node_limit
grouped = refl

abbrev is_a : PlannedDispatch → Bool
is_a p = str_eq p.job.job_id "a"

group_dispatches_lem_example :
    (p : MissionPolicy) × (parse_execution_policy (mapping absent absent) ≡ ok p)
    × (1 ≤ engagement_node_limit p)
    × (count is_a (members_of (alone ∷ together ∷ [])) ≡ count is_a three)
    × All (IsGroup takes_engagements (engagement_node_limit p)) (alone ∷ together ∷ [])
group_dispatches_lem_example =
    group_dispatches_lem takes_engagements (mapping absent absent) three (alone ∷ together ∷ [])
      is_a grouped

abbrev work : Group → Result String DispatchResult
work g =
    if g.engagement
    then err "timed out"
    else ok (record {
      success = true;
      issue_url = some "https://tracker/1";
      error = none;
      session_ref = none;
      attempt_dir = none;
    })

record_outcomes-IsSettled_example :
    (db' : Db) × (record_outcomes
        (some "b0")
        9
        three
        (collect_outcomes work (together ∷ alone ∷ []))
        db
      ≡ ok db')
    × All (λ p. any (is_dispatching p.session_db_id) db'.sessions ≡ false) three
record_outcomes-IsSettled_example =
    record_outcomes-IsSettled (some "b0") 9 takes_engagements (mapping absent absent) three
      (alone ∷ together ∷ []) (together ∷ alone ∷ []) work db grouped (Perm.swap alone together [])
