-- ===== src/Heartbeat/Recording.antt =====
-- scripts/runtime/heartbeat/runner.py, the answers of the workers and their recording.
pub mod Settled
use Prim.Native.String.{◌++◌ as text_append}
use gddp_runtime.Prelude.{
  min, ◌*◌, ℕ, zero, suc, ◌+◌, ◌-◌, ◌≤◌, ◌<◌, String, Bool, true, false, ◌&&◌, ◌||◌, not, Option,
  none, some, List, [], ◌∷◌, ◌++◌, map, any, all, keep, All, nonempty, length, mem, if◌then◌else◌,
  ltb, leb, ◌==◌, str_eq, eq_iff, eq_refl, or_else, is_some, Result, ok, err, ◌>>=◌, ◌>>◌, guard,
  ◌≡◌, ◌≢◌, ◌↔◌, ◌⊎◌, inl, inr, refl, sym, ap, subst, ◌∙◌, arith, Bool-cases, Option-cases,
}
use gddp_runtime.Heartbeat.Dispatching.{Group}
use gddp_runtime.Heartbeat.Policy.{
  RawPolicy, PolicyError, MissionPolicy, parse_execution_policy, take, drop,
}
use gddp_runtime.Heartbeat.Store.{Db}
use gddp_runtime.Heartbeat.Recorder.{mark_event_mapped, mark_job_running, mark_job_failed}
use gddp_runtime.Heartbeat.Sessions.{filled, Finalization, finalize_executor_session_dispatch}
use gddp_runtime.Heartbeat.Planning.{PlannedDispatch}

pub record SessionRef : Type 0 where
  pub executor : String
  pub session_id : String

-- What an adapter's dispatch answers.
pub record DispatchResult : Type 0 where
  pub success : Bool
  pub issue_url : Option String
  pub error : Option String
  pub session_ref : Option SessionRef
  pub attempt_dir : Option String

pub record DispatchOutcome : Type 0 where
  pub planned : PlannedDispatch
  pub success : Bool
  pub issue_url : String
  pub error : String
  pub session_ref : Option SessionRef
  pub attempt_dir : Option String

abbrev text_or_empty : Option String → String
text_or_empty none = ""
text_or_empty (some t) = t

-- The outcome of a member: the worker's answer, or the text of the exception that it raised.
unfoldable pub outcome_of : Result String DispatchResult → PlannedDispatch → DispatchOutcome
outcome_of (ok r) p = record {
  planned = p;
  success = r.success;
  issue_url = text_or_empty r.issue_url;
  error = text_or_empty r.error;
  session_ref = r.session_ref;
  attempt_dir = r.attempt_dir;
}
outcome_of (err message) p = record {
  planned = p;
  success = false;
  issue_url = "";
  error = text_append "Dispatch raised exception: " message;
  session_ref = none;
  attempt_dir = none;
}

-- `outcomes_by_job_id`, from the groups in the order in which their workers end.
module _ (work : Group → Result String DispatchResult) where
  unfoldable pub collect_outcomes : List Group → List (String × DispatchOutcome)
  unfolding outcome_of
  collect_outcomes [] = []
  collect_outcomes (g ∷ rest) =
      map (λ p. (p.job.job_id, outcome_of (work g) p)) g.members ++ collect_outcomes rest

-- `outcomes_by_job_id[job_id]`: the last entry of a key counts.
unfoldable pub outcome_for : String → List (String × DispatchOutcome) → Option DispatchOutcome
outcome_for id [] = none
outcome_for id ((k, o) ∷ rest) =
    or_else (outcome_for id rest) (if str_eq k id then some o else none)

-- The exception of a dictionary without the key.
pub data KeyError : Type 0 where
  missing_key : String → KeyError

-- `head` is git's answer for the checkout, at the recording.
module _ (head : Option String) (now : ℕ) where
  unfoldable pub recorded_base : PlannedDispatch → Option String
  unfolding filled
  recorded_base p = or_else (filled p.job.expected_base_commit_sha) head

  unfoldable pub finalization_of : PlannedDispatch → DispatchOutcome → Finalization
  unfolding recorded_base filled
  finalization_of p o =
      if o.success
      then elim o.session_ref [
        | some ref ↦ record {
          state = "dispatched";
          executor = some ref.executor;
          session_id = some ref.session_id;
          expected_base_commit_sha = recorded_base p;
          error = none;
          attempt_dir = o.attempt_dir;
        }
        | none ↦ record {
          state = "mediated";
          executor = none;
          session_id = filled (some o.issue_url);
          expected_base_commit_sha = recorded_base p;
          error = none;
          attempt_dir = o.attempt_dir;
        }
      ]
      else record {
        state = "dispatch_failed";
        executor = none;
        session_id = none;
        expected_base_commit_sha = recorded_base p;
        error = some (if str_eq o.error "" then "dispatch failed" else o.error);
        attempt_dir = o.attempt_dir;
      }

  -- A late result is ignored but for the event.
  unfoldable pub record_finalized : PlannedDispatch → DispatchOutcome → Db × Bool → Db
  record_finalized p o (db, false) = mark_event_mapped p.event_id db
  record_finalized p o (db, true) =
      let mapped = mark_event_mapped p.event_id db in
      if o.success
      then mark_job_running p.job.job_id mapped
      else mark_job_failed p.job.job_id mapped

  unfoldable pub record_outcome : PlannedDispatch → DispatchOutcome → Db → Db
  unfolding record_finalized finalization_of
  record_outcome p o db =
      record_finalized p o
        (finalize_executor_session_dispatch now p.session_db_id (finalization_of p o) db)

  unfoldable pub record_found : PlannedDispatch → Option DispatchOutcome → Db → Result KeyError Db
  record_found p none db = err (missing_key p.job.job_id)
  record_found p (some o) db = ok (record_outcome p o db)

  unfoldable pub record_outcomes :
      List PlannedDispatch → List (String × DispatchOutcome) → Db → Result KeyError Db
  unfolding record_found
  record_outcomes [] outcomes db = ok db
  record_outcomes (p ∷ rest) outcomes db = do
    recorded ← record_found p (outcome_for p.job.job_id outcomes) db
    record_outcomes rest outcomes recorded
