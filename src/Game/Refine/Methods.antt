-- ===== src/Game/Refine/Methods.antt =====
-- Each method of GameService that is one transaction makes changes of `Change` only, whatever
-- round trips fail.
use byte_battle.Prelude.{
  ℕ, ◌≤◌, ◌≡◌, ◌≢◌, ◌⊎◌, inr, true, false, some, none, any, length, filter, arith,
}
use byte_battle.Db.Rows.{Game, Uuid, pending, active}
use byte_battle.Db.Exec.{World, ok, transaction, statement, to_int32}
use byte_battle.Queries.Games.{
  find_game, game_is, get_game_for_update, get_game_by_id, update_game, started, completed,
  cancelled_at, timed_out,
}
use byte_battle.Queries.Games as Games
use byte_battle.Queries.GameParticipants.{
  is_member, in_game, insert_participant, remove_participant, is_game_participant,
  add_game_participant, remove_game_participant, count_game_participants,
}
use byte_battle.Game.Members.{join_game, leave_game}
use byte_battle.Game.Progress.{start_game, finish_game, cancel_game, min_players}
use byte_battle.Game.Change.{Changes, once, join, leave, start, win, cancel}
use byte_battle.Game.Refine.Found.{find_game-id, found_by, transaction-Changes}

join_game-ok :
    (id : ℕ) (user : Uuid) (w : World) (r g : Game)
    → find_game (to_int32 id) w.db ≡ some g
    → (join_game id user w).0 ≡ ok r
    → (g.status ≡ pending)
      × (any (is_member (to_int32 id) user) w.db.game_participants ≡ false)
      × ((join_game id user w).1.db ≡ insert_participant (to_int32 id) user w.db)
unfolding join_game transaction statement get_game_for_update is_game_participant
    add_game_participant
join_game-ok id user w r g f h = ground (arith, find_game-id (to_int32 id) w.db g)

leave_game-ok :
    (id : ℕ) (user : Uuid) (w : World) (r g : Game)
    → find_game (to_int32 id) w.db ≡ some g
    → (leave_game id user w).0 ≡ ok r
    → (g.status ≡ pending)
      × (user ≢ g.creator_id)
      × ((leave_game id user w).1.db ≡ remove_participant (to_int32 id) user w.db)
unfolding leave_game transaction statement get_game_for_update remove_game_participant
leave_game-ok id user w r g f h = ground (arith, find_game-id (to_int32 id) w.db g)

start_game-ok :
    (id : ℕ) (user : Uuid) (w : World) (r g : Game)
    → find_game (to_int32 id) w.db ≡ some g
    → (start_game id user w).0 ≡ ok r
    → (g.status ≡ pending)
      × (min_players g.is_solo ≤ length (filter (in_game (to_int32 id)) w.db.game_participants))
      × ((start_game id user w).1.db ≡ update_game (to_int32 id) (started w.now) w.db)
unfolding start_game transaction statement get_game_for_update count_game_participants
    Games.start_game
start_game-ok id user w r g f h = ground (arith, find_game-id (to_int32 id) w.db g)

pub cancel_game-ok :
    (id : ℕ) (user : Uuid) (w : World) (r g : Game)
    → find_game (to_int32 id) w.db ≡ some g
    → (cancel_game id user w).0 ≡ ok r
    → ((g.status ≡ pending) ⊎ (g.status ≡ active))
      × ((cancel_game id user w).1.db ≡ update_game (to_int32 id) (cancelled_at w.now) w.db)
unfolding cancel_game transaction statement get_game_for_update Games.cancel_game
cancel_game-ok id user w r g f h = ground (arith, find_game-id (to_int32 id) w.db g)

finish_game-ok :
    (id : ℕ) (winner : Uuid) (w : World) (r g : Game)
    → find_game (to_int32 id) w.db ≡ some g
    → (finish_game id winner w).0 ≡ ok r
    → (g.status ≡ active)
      × (any (is_member (to_int32 id) winner) w.db.game_participants ≡ true)
      × ((finish_game id winner w).1.db ≡ update_game (to_int32 id) (completed winner w.now) w.db)
unfolding finish_game transaction statement get_game_for_update is_game_participant
    Games.complete_game
finish_game-ok id winner w r g f h = ground (arith, find_game-id (to_int32 id) w.db g)

module _ (id : ℕ) (user : Uuid) (w : World) where
  pub join_game-found :
      (r : Game) → (join_game id user w).0 ≡ ok r → ¬ (find_game (to_int32 id) w.db ≡ none)
  unfolding join_game transaction statement get_game_for_update
  join_game-found r h missing = ground arith

  leave_game-found :
      (r : Game) → (leave_game id user w).0 ≡ ok r → ¬ (find_game (to_int32 id) w.db ≡ none)
  unfolding leave_game transaction statement get_game_for_update
  leave_game-found r h missing = ground arith

  pub start_game-found :
      (r : Game) → (start_game id user w).0 ≡ ok r → ¬ (find_game (to_int32 id) w.db ≡ none)
  unfolding start_game transaction statement get_game_for_update
  start_game-found r h missing = ground arith

  pub cancel_game-found :
      (r : Game) → (cancel_game id user w).0 ≡ ok r → ¬ (find_game (to_int32 id) w.db ≡ none)
  unfolding cancel_game transaction statement get_game_for_update
  cancel_game-found r h missing = ground arith

  pub finish_game-found :
      (r : Game) → (finish_game id user w).0 ≡ ok r → ¬ (find_game (to_int32 id) w.db ≡ none)
  unfolding finish_game transaction statement get_game_for_update
  finish_game-found r h missing = ground arith

  pub join_game-Changes : Changes w.now w.db (join_game id user w).1.db
  unfolding join_game
  join_game-Changes = transaction-Changes _ w λ r h.
      let (g, f) = found_by _ (join_game-found r h) in
      let (waits, fresh, e) = join_game-ok id user w r g f h in
      once (join g (to_int32 id) user f waits fresh e)

  pub leave_game-Changes : Changes w.now w.db (leave_game id user w).1.db
  unfolding leave_game
  leave_game-Changes = transaction-Changes _ w λ r h.
      let (g, f) = found_by _ (leave_game-found r h) in
      let (waits, other, e) = leave_game-ok id user w r g f h in
      once (leave g (to_int32 id) user f waits other e)

  pub start_game-Changes : Changes w.now w.db (start_game id user w).1.db
  unfolding start_game
  start_game-Changes = transaction-Changes _ w λ r h.
      let (g, f) = found_by _ (start_game-found r h) in
      let (waits, enough, e) = start_game-ok id user w r g f h in
      once (start g (to_int32 id) f waits enough e)

  pub cancel_game-Changes : Changes w.now w.db (cancel_game id user w).1.db
  unfolding cancel_game
  cancel_game-Changes = transaction-Changes _ w λ r h.
      let (g, f) = found_by _ (cancel_game-found r h) in
      let (open_game, e) = cancel_game-ok id user w r g f h in
      once (cancel g (to_int32 id) f open_game e)

  pub finish_game-Changes : Changes w.now w.db (finish_game id user w).1.db
  unfolding finish_game
  finish_game-Changes = transaction-Changes _ w λ r h.
      let (g, f) = found_by _ (finish_game-found r h) in
      let (runs, joined, e) = finish_game-ok id user w r g f h in
      once (win g (to_int32 id) user f runs (inr joined) e)
