-- ===== src/Game/Members.antt =====
-- internal/service/game_service.go: JoinGame, JoinGameByToken, LeaveGame.
use byte_battle.Prelude.{ℕ, ◌==◌, Bool, true, false, not}
use byte_battle.ApiErr.{
  game_not_found, game_already_started, already_participant, game_already_cancelled,
  creator_cannot_leave, not_participant,
}
use byte_battle.Db.Rows.{Game, Uuid, Status, pending, active, finished, cancelled}
use byte_battle.Db.Exec.{Action, pure, raise_if, ◌>>=◌, ◌>>◌, or_missing, transaction, to_int32}
use byte_battle.Queries.Games.{get_game_for_update, get_game_by_invite_token}
use byte_battle.Queries.GameParticipants.{
  is_game_participant, add_game_participant, remove_game_participant,
}

-- game.Status == s
abbrev pub is_pending : Status → Bool
is_pending pending = true
is_pending _ = false

abbrev pub is_active : Status → Bool
is_active active = true
is_active _ = false

abbrev pub is_finished : Status → Bool
is_finished finished = true
is_finished _ = false

abbrev pub is_cancelled : Status → Bool
is_cancelled cancelled = true
is_cancelled _ = false

unfoldable pub join_game : ℕ → Uuid → Action Game
join_game game_id user = transaction do
  game ← or_missing (get_game_for_update (to_int32 game_id)) game_not_found
  raise_if (not (is_pending game.status)) game_already_started
  already ← is_game_participant game.id user
  raise_if already already_participant
  add_game_participant game.id user
  pure game

unfoldable pub get_game_by_token : Uuid → Action Game
get_game_by_token token = or_missing (get_game_by_invite_token token) game_not_found

unfoldable pub join_game_by_token : Uuid → Uuid → Action Game
join_game_by_token token user = do game ← get_game_by_token token; join_game game.id user

unfoldable pub leave_game : ℕ → Uuid → Action Game
leave_game game_id user = transaction do
  game ← or_missing (get_game_for_update (to_int32 game_id)) game_not_found
  raise_if (is_cancelled game.status) game_already_cancelled
  raise_if (not (is_pending game.status)) game_already_started
  raise_if (game.creator_id == user) creator_cannot_leave
  rows ← remove_game_participant game.id user
  raise_if (rows == 0) not_participant
  pure game
