-- ===== src/Heartbeat/Recording/Settled.antt =====
-- Every planned dispatch gets an outcome, whose recording settles its session.
use mathlib.Core.Logic.{∥∥₁_elim}
use native.Mathlib.Nat.{ℕ_set}
use mathlib.Core.List.{Permᴰ, Perm}
use gddp_runtime.Prelude.{
  Among, any_of_Among, All_of_Among, any-append, ℕ, ◌+◌, String, Bool, true, false, ◌||◌, Option,
  none, some, List, [], ◌∷◌, ◌++◌, map, any, All, ltb, str_eq, eq_refl, is_some, Result, ok, ◌≡◌,
  refl, sym, ap, ◌∙◌, arith,
}
use gddp_runtime.Heartbeat.Policy.{RawPolicy}
use gddp_runtime.Heartbeat.Store.{Db, SessionRow, count, update, set_if}
use gddp_runtime.Heartbeat.Store.Rows.{count-append}
use gddp_runtime.Heartbeat.Sessions.{
  is_dispatching, finalized, Finalization, finalize_executor_session_dispatch,
}
use gddp_runtime.Heartbeat.Sessions.Finalize.{none_left}
use gddp_runtime.Heartbeat.Recorder.{
  mark_event_mapped, mark_job_running, mark_job_failed, set_job_state,
}
use gddp_runtime.Heartbeat.Planning.{PlannedDispatch}
use gddp_runtime.Heartbeat.Dispatching.{Group, group_dispatches}
use gddp_runtime.Heartbeat.Recording.{
  collect_outcomes, finalization_of, record_finalized, record_outcome, record_found,
  record_outcomes, SessionRef, DispatchResult, DispatchOutcome, outcome_of, outcome_for,
}
use gddp_runtime.Heartbeat.Dispatching.Covering.{members_of}
use gddp_runtime.Heartbeat.Dispatching.Groups.{group_dispatches_lem}

is_job : String → PlannedDispatch → Bool
is_job id p = str_eq p.job.job_id id

module _ (id : String) where
  for-append :
      (xs ys : List (String × DispatchOutcome))
      → is_some (outcome_for id (xs ++ ys))
        ≡ (is_some (outcome_for id xs) || is_some (outcome_for id ys))
  unfolding outcome_for
  for-append [] ys = refl
  for-append ((k, o) ∷ xs) ys = ground (arith, for-append xs ys)

  members_for :
      (answer : Result String DispatchResult) (ps : List PlannedDispatch)
      → is_some (outcome_for id (map (λ p. (p.job.job_id, outcome_of answer p)) ps))
        ≡ any (is_job id) ps
  unfolding outcome_for is_job
  members_for answer [] = refl
  members_for answer (p ∷ ps) = ground (arith, members_for answer ps)

  -- A job has an outcome exactly where some finished group has a dispatch of it.
  outcome_for-collect :
      (work : Group → Result String DispatchResult) (groups : List Group)
      → is_some (outcome_for id (collect_outcomes work groups))
        ≡ any (is_job id) (members_of groups)
  unfolding collect_outcomes outcome_for
  outcome_for-collect work [] = refl
  outcome_for-collect work (g ∷ rest) =
      for-append (map (λ p. (p.job.job_id, outcome_of (work g) p)) g.members) _
      ∙ ap (λ b. b || is_some (outcome_for id (collect_outcomes work rest)))
          (members_for (work g) g.members)
      ∙ ap (λ b. any (is_job id) g.members || b) (outcome_for-collect work rest)
      ∙ sym (any-append (is_job id) g.members (members_of rest))

  any-count : (ps : List PlannedDispatch) → any (is_job id) ps ≡ ltb 0 (count (is_job id) ps)
  any-count [] = refl
  any-count (p ∷ ps) = ground (arith, any-count ps)

module _ (q : PlannedDispatch → Bool) where
  abbrev total : List Group → ℕ
  total gs = count q (members_of gs)

  total_cons : (g : Group) (gs : List Group) → total (g ∷ gs) ≡ count q g.members + total gs
  total_cons g gs = count-append q g.members (members_of gs)

  total-Permᴰ : {xs ys : List Group} → Permᴰ xs ys → total xs ≡ total ys
  total-Permᴰ Permᴰ.nil = refl
  total-Permᴰ (Permᴰ.cons {a} {b} {l₁} {l₂} e h) =
      let same = ap (λ (g : Group). count q g.members) e in
      omega (arith, total_cons a l₁, total_cons b l₂, total-Permᴰ h, same)
  total-Permᴰ (Permᴰ.swap {a} {b} {a'} {b'} {l} e f) =
      let same = ap (λ (g : Group). count q g.members) e in
      let same' = ap (λ (g : Group). count q g.members) f in
      omega (
        arith,
        total_cons a (b ∷ l),
        total_cons b l,
        total_cons a' (b' ∷ l),
        total_cons b' l,
        same,
        same',
      )
  total-Permᴰ (Permᴰ.trans h g) = total-Permᴰ h ∙ total-Permᴰ g

  total-perm : {xs ys : List Group} → Perm xs ys → total xs ≡ total ys
  total-perm h = ∥∥₁_elim h (ℕ_set _ _) total-Permᴰ

module _ (head : Option String) (now : ℕ) where
  moved_on :
      (p : PlannedDispatch) (o : DispatchOutcome)
      → str_eq (finalization_of head now p o).state "dispatching" ≡ false
  unfolding finalization_of
  moved_on p o = by o.success o.session_ref
    where
      by :
          (b : Bool) (r : Option SessionRef)
          → str_eq
              (finalization_of head now p (record o { success = b; session_ref = r })).state
              "dispatching"
            ≡ false
      by true (some ref) = refl
      by true none = refl
      by false r = refl

  finalized_sessions :
      (p : PlannedDispatch) (o : DispatchOutcome) (db : Db) (b : Bool)
      → (record_finalized head now p o (db, b)).sessions ≡ db.sessions
  unfolding record_finalized mark_event_mapped mark_job_running mark_job_failed set_job_state
  finalized_sessions p o db false = refl
  finalized_sessions p o db true = by o.success
    where
      by :
          (b : Bool)
          → (record_finalized head now p (record o { success = b }) (db, true)).sessions
            ≡ db.sessions
      by true = refl
      by false = refl

  -- Recording leaves the sessions as the finalisation does.
  recorded_sessions :
      (p : PlannedDispatch) (o : DispatchOutcome) (db : Db)
      → (record_outcome head now p o db).sessions
        ≡ update
            (is_dispatching p.session_db_id)
            (finalized now (finalization_of head now p o))
            db.sessions
  unfolding record_outcome finalize_executor_session_dispatch
  recorded_sessions p o db = finalized_sessions p o _ _

  abbrev IsSettled : String → List SessionRow → Type 0
  IsSettled id rows = any (is_dispatching id) rows ≡ false

  stays_settled :
      (id id' : String) (f : Finalization) (rows : List SessionRow)
      → str_eq f.state "dispatching" ≡ false
      → IsSettled id rows
      → IsSettled id (update (is_dispatching id') (finalized now f) rows)
  unfolding is_dispatching set_if finalized
  stays_settled id id' f [] m h = refl
  stays_settled id id' f (s ∷ rows) m h =
      ground (arith, m, stays_settled id id' f rows m (ground arith))

  record_outcome-IsSettled :
      (p : PlannedDispatch) (o : DispatchOutcome) (db : Db)
      → IsSettled p.session_db_id (record_outcome head now p o db).sessions
  record_outcome-IsSettled p o db =
      ap (any (is_dispatching p.session_db_id)) (recorded_sessions p o db)
      ∙ none_left now p.session_db_id (finalization_of head now p o) (moved_on p o) db.sessions

  record_outcome_keeps :
      (id : String) (p : PlannedDispatch) (o : DispatchOutcome) (db : Db)
      → IsSettled id db.sessions
      → IsSettled id (record_outcome head now p o db).sessions
  record_outcome_keeps id p o db h =
      ap (any (is_dispatching id)) (recorded_sessions p o db)
      ∙ stays_settled id p.session_db_id (finalization_of head now p o) db.sessions (moved_on p o) h

  recorded :
      (outcomes : List (String × DispatchOutcome)) (ps : List PlannedDispatch) (db : Db)
      → All (λ p. is_some (outcome_for p.job.job_id outcomes) ≡ true) ps
      → (db' : Db) × (record_outcomes head now ps outcomes db ≡ ok db')
        × All (λ p. IsSettled p.session_db_id db'.sessions) ps
        × ((id : String) → IsSettled id db.sessions → IsSettled id db'.sessions)
  unfolding record_outcomes record_found
  recorded outcomes [] db h = (db, refl, tt, λ id s. s)
  recorded outcomes (p ∷ ps) db h =
      found (outcome_for p.job.job_id outcomes) refl h.0 (λ d. recorded outcomes ps d h.1)
    where
      found :
          (o : Option DispatchOutcome)
          → outcome_for p.job.job_id outcomes ≡ o
          → is_some (outcome_for p.job.job_id outcomes) ≡ true
          → ((d : Db)
              → (db' : Db) × (record_outcomes head now ps outcomes d ≡ ok db')
                × All (λ p. IsSettled p.session_db_id db'.sessions) ps
                × ((id : String) → IsSettled id d.sessions → IsSettled id db'.sessions))
          → (db' : Db) × (record_outcomes head now (p ∷ ps) outcomes db ≡ ok db')
            × All (λ p. IsSettled p.session_db_id db'.sessions) (p ∷ ps)
            × ((id : String) → IsSettled id db.sessions → IsSettled id db'.sessions)
      found none e s rest = absurd (cc)
      found (some o) e s rest =
          let r = rest (record_outcome head now p o db) in
          (
            r.0,
            rw e r.1,
            (r.3 p.session_db_id (record_outcome-IsSettled p o db), r.2),
            λ id t. r.3 id (record_outcome_keeps id p o db t),
          )

  -- However the workers end, in whatever order, and whatever they answer or raise, every planned
  -- dispatch of a policy that parses has an outcome, so that the recording returns, and after it no
  -- session of a planned dispatch is left dispatching.
  pub record_outcomes-IsSettled :
      (supports : String → Bool) (policy : RawPolicy) (planned : List PlannedDispatch)
      (groups finished : List Group) (work : Group → Result String DispatchResult) (db : Db)
      → group_dispatches supports policy planned ≡ ok groups
      → Perm finished groups
      → (db' : Db) × (record_outcomes head now planned (collect_outcomes work finished) db ≡ ok db')
        × All (λ p. any (is_dispatching p.session_db_id) db'.sessions ≡ false) planned
  unfolding is_job
  record_outcomes-IsSettled supports policy planned groups finished work db g perm =
      let r = recorded (collect_outcomes work finished) planned db (All_of_Among _ planned here) in
      (r.0, r.1, r.2)
    where
      here :
          (p : PlannedDispatch)
          → Among p planned
          → is_some (outcome_for p.job.job_id (collect_outcomes work finished)) ≡ true
      here p m =
          let q = is_job p.job.job_id in
          let planned_count = (group_dispatches_lem supports policy planned groups q g).3 in
          outcome_for-collect p.job.job_id work finished
          ∙ any-count p.job.job_id (members_of finished)
          ∙ ap (ltb 0) (total-perm q perm ∙ planned_count)
          ∙ sym (any-count p.job.job_id planned)
          ∙ any_of_Among q planned p m (eq_refl p.job.job_id)
