-- ===== src/Heartbeat/Sessions/Finalize.antt =====
-- A reserved dispatch is finalised once.
use gddp_runtime.Prelude.{ℕ, String, false, List, [], ◌∷◌, any, str_eq, ◌≡◌, refl, arith}
use gddp_runtime.Heartbeat.Store.{Db, SessionRow, update, set_if}
use gddp_runtime.Heartbeat.Sessions.{
  finalized, Finalization, is_dispatching, finalize_executor_session_dispatch,
}
use gddp_runtime.Heartbeat.Store.Rows.{update_none, keep_none}

module _ (now : ℕ) (id : String) (f : Finalization)
    (moved : str_eq f.state "dispatching" ≡ false) where
  pub none_left :
      (rows : List SessionRow)
      → any (is_dispatching id) (update (is_dispatching id) (finalized now f) rows) ≡ false
  unfolding is_dispatching set_if finalized
  none_left [] = refl
  none_left (s ∷ rows) = ground (arith, moved, none_left rows)

  -- A session that was reserved is finalised once: where the first finalisation of a session moves
  -- it to another state than "dispatching", any later one reports that it did nothing and leaves
  -- the database as the first one left it, whatever else it is called with.
  pub finalize_executor_session_dispatch_once :
      (later : ℕ) (g : Finalization) (db : Db)
      → finalize_executor_session_dispatch later id g
          (finalize_executor_session_dispatch now id f db).0
        ≡ ((finalize_executor_session_dispatch now id f db).0, false)
  unfolding finalize_executor_session_dispatch
  finalize_executor_session_dispatch_once later g db =
      let rows = update (is_dispatching id) (finalized now f) db.sessions in
      rw
        (
          update_none (is_dispatching id) (finalized later g) rows (none_left db.sessions),
          keep_none (is_dispatching id) rows (none_left db.sessions),
        )
        refl
