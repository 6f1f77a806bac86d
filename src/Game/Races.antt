-- ===== src/Game/Races.antt =====
-- TimeoutGame reads and tests the game in one statement and writes it in another, with no
-- transaction around them; other requests may run in between.
use byte_battle.Prelude.{ℕ, ◌≡◌, refl, some, arith}
use byte_battle.Db.Rows.{Game, Uuid, finished, cancelled}
use byte_battle.Db.Exec.{World, ok, to_int32, statement}
use byte_battle.Queries.Games.{find_game, cancelled_at, timed_out, update_game, get_game_by_id}
use byte_battle.Queries.Games as Games
use byte_battle.Game.Progress.{check_timeout, cancel_game}
use byte_battle.Game.Tables.{find_game-update}
use byte_battle.Game.Refine.Found.{find_game-id}
use byte_battle.Game.Refine.Methods.{cancel_game-ok}

-- The tests of TimeoutGame pass on the game that is there.
check_timeout-ok :
    (id : ℕ) (u : Uuid) (w : World) (g : Game)
    → (check_timeout id u w).0 ≡ ok g
    → (find_game (to_int32 id) w.db ≡ some g) × ((check_timeout id u w).1.db ≡ w.db)
unfolding check_timeout statement get_game_by_id
check_timeout-ok id u w g h = ground arith

timeout_statement :
    (i : ℕ) (w : World) (g r : Game)
    → find_game i w.db ≡ some g
    → (Games.timeout_game i w).0 ≡ ok r
    → (Games.timeout_game i w).1.db ≡ update_game i (timed_out w.now) w.db
unfolding Games.timeout_game statement
timeout_statement i w g r f h = ground arith

module _ (id : ℕ) (u v : Uuid) (w : World) (g c r : Game) where
  -- The world after the tests of TimeoutGame, after a cancellation that runs next, and after the
  -- update of TimeoutGame.
  abbrev tested : World
  tested = (check_timeout id u w).1

  abbrev called_off : World
  called_off = (cancel_game id v tested).1

  abbrev timed : World
  timed = (Games.timeout_game g.id called_off).1

  module _ (passed : (check_timeout id u w).0 ≡ ok g)
      (cancelled_now : (cancel_game id v tested).0 ≡ ok c)
      (written : (Games.timeout_game g.id called_off).0 ≡ ok r) where
    cancelled_game : find_game g.id called_off.db ≡ some (cancelled_at tested.now g)
    cancelled_game =
        let (f, same) = check_timeout-ok id u w g passed in
        let f' : find_game (to_int32 id) tested.db ≡ some g = rw same f in
        let e = (cancel_game-ok id v tested c g f' cancelled_now).1 in
        rw e (
          ground (
            arith,
            find_game-id (to_int32 id) w.db g f,
            f',
            find_game-update (cancelled_at tested.now) (to_int32 id) g.id tested.db (λ h. refl),
          ))

    -- When the tests of TimeoutGame pass, a CancelGame that runs next succeeds, and the update of
    -- TimeoutGame then succeeds, the game was cancelled and ends as finished.
    pub timeout-overwrites-cancel :
        ((h : Game) × (find_game g.id called_off.db ≡ some h) × (h.status ≡ cancelled))
        × ((h : Game) × (find_game g.id timed.db ≡ some h) × (h.status ≡ finished))
    timeout-overwrites-cancel =
        let e = timeout_statement g.id called_off _ r cancelled_game written in
        (
          (cancelled_at tested.now g, cancelled_game, refl),
          (
            timed_out called_off.now (cancelled_at tested.now g),
            rw e (
                ground (
                  arith,
                  cancelled_game,
                  find_game-update (timed_out called_off.now) g.id g.id called_off.db (λ h. refl),
                )),
            refl,
          ),
        )
