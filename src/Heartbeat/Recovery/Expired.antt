-- ===== src/Heartbeat/Recovery/Expired.antt =====
-- No expired reservation outlives its recovery.
use gddp_runtime.Prelude.{
  ℕ, ◌≤◌, ◌<◌, String, Bool, true, false, Option, none, some, List, [], ◌∷◌, any, All, All-imp,
  Among, All-Among, All_of_Among, Among-keep, any-false, leb, str_eq, eq_iff, ◌==◌, ◌≡◌, ◌≢◌, ◌⊎◌,
  inl, inr, refl, sym, ap, subst, ◌∙◌, arith, Bool-cases,
}
use gddp_runtime.Heartbeat.Recovery.{
  fail_recovered, is_expired, expire, recover_row, recover_rows, stale_reservations,
  is_stale_reservation, in_repo, recover_stale_dispatching_sessions,
}
use gddp_runtime.Heartbeat.Store.{Db, JobRow, SessionRow, update, set_if, count, find}
use gddp_runtime.Heartbeat.Store.Rows.{Among-order_by, Among-update}
use gddp_runtime.Heartbeat.Recorder.{mark_job_failed, set_job_state}

module _ (now cutoff : ℕ) where
  -- No reservation of this identifier has expired.
  abbrev IsRecovered : String → List SessionRow → Type 0
  IsRecovered id rows = any (is_expired cutoff id) rows ≡ false

  expired_row :
      (id : String) (s : SessionRow)
      → is_expired cutoff id (set_if (is_expired cutoff id) (expire now) s) ≡ false
  unfolding set_if expire is_expired
  expired_row id s = elim (Bool-cases (is_expired cutoff id s)) [
    | inl t ↦ rw t (ground arith)
    | inr t ↦ rw t t
  ]

  expired_self :
      (id : String) (rows : List SessionRow)
      → IsRecovered id (update (is_expired cutoff id) (expire now) rows)
  expired_self id [] = refl
  expired_self id (s ∷ rows) = rw (expired_row id s) (expired_self id rows)

  expired_other :
      (id other : String) (rows : List SessionRow)
      → IsRecovered other rows
      → IsRecovered other (update (is_expired cutoff id) (expire now) rows)
  unfolding is_expired expire set_if
  expired_other id other [] h = refl
  expired_other id other (s ∷ rows) h =
      ground (arith, h, expired_other id other rows (ground (arith, h)))

  row_sessions :
      (s : SessionRow) (db : Db)
      → (recover_row now cutoff s db).0.sessions
        ≡ update (is_expired cutoff s.session_db_id) (expire now) db.sessions
  unfolding recover_row
  row_sessions s db = go (count (is_expired cutoff s.session_db_id) db.sessions == 1) _
    where
      go : (b : Bool) (d : Db) → (fail_recovered s.job_id b d).0.sessions ≡ d.sessions
      go true d = unfold fail_recovered mark_job_failed set_job_state in refl
      go false d = unfold fail_recovered in refl

  rows_keep :
      (rows : List SessionRow) (db : Db) (id : String)
      → IsRecovered id db.sessions
      → IsRecovered id (recover_rows now cutoff rows db).0.sessions
  unfolding recover_rows
  rows_keep [] db id h = h
  rows_keep (s ∷ rows) db id h = rows_keep rows _ id (
      ap (any (is_expired cutoff id)) (row_sessions s db)
      ∙ expired_other s.session_db_id id db.sessions h)

  recover_rows-IsRecovered :
      (rows : List SessionRow) (db : Db)
      → All (λ s. IsRecovered s.session_db_id (recover_rows now cutoff rows db).0.sessions) rows
  unfolding recover_rows
  recover_rows-IsRecovered [] db = tt
  recover_rows-IsRecovered (s ∷ rows) db = (
    rows_keep rows _ s.session_db_id (
        ap (any (is_expired cutoff s.session_db_id)) (row_sessions s db)
        ∙ expired_self s.session_db_id db.sessions),
    recover_rows-IsRecovered rows _,
  )

  recovered_apart :
      (id : String) (t : SessionRow)
      → is_expired cutoff id t ≡ false
      → (t.session_db_id ≢ id) ⊎ ((t.state ≢ "dispatching") ⊎ (cutoff < t.updated_at))
  unfolding is_expired
  recovered_apart id t h = elim (Bool-cases (str_eq t.session_db_id id)) [
    | inr e ↦ inl (λ q. absurd (cc (e, (eq_iff t.session_db_id id).1 q)))
    | inl e ↦ elim (Bool-cases (str_eq t.state "dispatching")) [
      | inr d ↦ inr (inl (λ q. absurd (cc (d, (eq_iff t.state "dispatching").1 q))))
      | inl d ↦ inr (inr (ground (arith, e, d, h)))
    ]
  ]

  alive :
      (id : String) (x : SessionRow)
      → (is_expired cutoff id x ≡ false) ⊎ ((x.state ≡ "dispatching") × (x.updated_at ≤ cutoff))
  unfolding is_expired
  alive id x = elim (Bool-cases (str_eq x.state "dispatching")) [
    | inr d ↦ inl (ground (arith, d))
    | inl d ↦ elim (Bool-cases (leb x.updated_at cutoff)) [
      | inr l ↦ inl (ground (arith, d, l))
      | inl l ↦ inr ((eq_iff x.state "dispatching").0 d, ground (arith, l))
    ]
  ]

  rows_spare :
      (rows : List SessionRow) (db : Db) (x : SessionRow)
      → Among x db.sessions
      → ((x.state ≡ "dispatching") × (x.updated_at ≤ cutoff))
        ⊎ Among x (recover_rows now cutoff rows db).0.sessions
  unfolding recover_rows
  rows_spare [] db x m = inr m
  rows_spare (s ∷ rows) db x m = elim (alive s.session_db_id x) [
    | inr e ↦ inl e
    | inl e ↦ rows_spare rows _ x (
        subst (Among x) (sym (row_sessions s db))
          (Among-update (is_expired cutoff s.session_db_id) (expire now) db.sessions x e m))
  ]

  -- A job is in the repository of a recovery, or the recovery names none.
  abbrev pub IsOf : Option String → JobRow → Type 0
  IsOf none j = Unit
  IsOf (some repo) j = j.repo ≡ repo

  stale :
      (repo : Option String) (s : SessionRow) (j : JobRow)
      → s.state ≡ "dispatching"
      → s.updated_at ≤ cutoff
      → s.attempt_index ≡ j.attempt
      → j.status ≢ "cancelled"
      → IsOf repo j
      → is_stale_reservation cutoff repo s (some j) ≡ true
  unfolding is_stale_reservation in_repo
  stale none s j d l a c o =
      ground (arith, eq_iff s.state "dispatching", eq_iff j.status "cancelled")
  stale (some repo) s j d l a c o =
      ground (arith, eq_iff s.state "dispatching", eq_iff j.status "cancelled", eq_iff j.repo repo)

  -- A reservation whose lease ran out, of the current attempt of a job that is not cancelled, and of
  -- the repository where one is named, is recovered: afterwards no session of its identifier is still
  -- dispatching past its lease. A session that is not dispatching, or whose lease runs, is there
  -- afterwards as it was.
  pub recover_stale_dispatching_sessions_lem :
      (repo : Option String) (db : Db) (s : SessionRow) (j : JobRow)
      → Among s db.sessions
      → find (λ i. str_eq i.job_id s.job_id) db.jobs ≡ some j
      → s.state ≡ "dispatching"
      → s.updated_at ≤ cutoff
      → s.attempt_index ≡ j.attempt
      → j.status ≢ "cancelled"
      → IsOf repo j
      → All
          (λ t.
            (t.session_db_id ≢ s.session_db_id)
            ⊎ ((t.state ≢ "dispatching") ⊎ (cutoff < t.updated_at)))
          (recover_stale_dispatching_sessions now cutoff repo db).0.sessions
        × All
            (λ x.
              ((x.state ≡ "dispatching") × (x.updated_at ≤ cutoff))
              ⊎ Among x (recover_stale_dispatching_sessions now cutoff repo db).0.sessions)
            db.sessions
  unfolding recover_stale_dispatching_sessions stale_reservations
  recover_stale_dispatching_sessions_lem repo db s j m f d l a c o =
      let rows = stale_reservations cutoff repo db in
      let listed : Among s rows =
        Among-order_by _ _ s (Among-keep _ db.sessions s m (rw f (stale repo s j d l a c o))) in
      (
        All-imp _ _ (λ t h. recovered_apart s.session_db_id t h)
            (recover_rows now cutoff rows db).0.sessions
            (any-false (is_expired cutoff s.session_db_id) _
              (All-Among _ rows s (recover_rows-IsRecovered rows db) listed)),
        All_of_Among _ db.sessions (λ x q. rows_spare rows db x q),
      )
