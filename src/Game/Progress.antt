-- ===== src/Game/Progress.antt =====
-- internal/service/game_service.go: the methods that move a game from one status to another, and
-- the progress of its players.
use byte_battle.Prelude.{ℕ, ◌==◌, ltb, if◌then◌else◌, Bool, true, false, not, ◌||◌}
use byte_battle.ApiErr.{
  validation, game_not_found, game_already_started, not_game_creator, not_enough_players,
  game_not_in_progress, invalid_winner, cannot_cancel_finished_game, game_already_cancelled,
}
use byte_battle.Db.Rows.{Game, Uuid}
use byte_battle.Db.Exec.{
  Action, pure, raise, raise_if, game_already_finished, ◌>>=◌, ◌>>◌, or_missing, transaction,
  to_int32,
}
use byte_battle.Queries.Games.{get_game_by_id, get_game_for_update}
use byte_battle.Queries.Games as Games
use byte_battle.Queries.GameParticipants.{
  count_game_participants, is_game_participant, advance_participant_problem,
}
use byte_battle.Queries.GameProblems.{count_game_problems}
use byte_battle.Game.Members.{is_pending, is_active, is_finished, is_cancelled}

abbrev pub min_players : Bool → ℕ
min_players is_solo = if is_solo then 1 else 2

unfoldable pub start_game : ℕ → Uuid → Action Game
start_game id user = transaction do
  game ← or_missing (get_game_for_update (to_int32 id)) game_not_found
  raise_if (not (is_pending game.status)) game_already_started
  raise_if (not (game.creator_id == user)) not_game_creator
  count ← count_game_participants game.id
  raise_if (ltb count (min_players game.is_solo)) not_enough_players
  Games.start_game game.id

-- `completeGame`
unfoldable pub finish_game : ℕ → Uuid → Action Game
finish_game id winner = transaction do
  game ← or_missing (get_game_for_update (to_int32 id)) game_not_found
  raise_if (not (is_active game.status)) game_not_in_progress
  joined ← is_game_participant game.id winner
  raise_if (not joined) invalid_winner
  Games.complete_game game.id winner

unfoldable pub complete_game_as_winner : ℕ → Uuid → Action Game
complete_game_as_winner id winner = finish_game id winner

unfoldable pub complete_game : ℕ → Uuid → Uuid → Action Game
complete_game id caller winner = do
  game ← or_missing (get_game_by_id (to_int32 id)) game_not_found
  raise_if (not (game.creator_id == caller)) not_game_creator
  finish_game id winner

-- For solo games the winner is the creator.
abbrev pub winner_of : Game → Uuid → Uuid
winner_of game user = if game.is_solo then game.creator_id else user

-- The transaction that ends HandleAcceptedSubmission.
unfoldable pub claim_victory : ℕ → Uuid → Action (Game × Bool)
claim_victory id user = transaction do
  game ← or_missing (get_game_for_update (to_int32 id)) game_not_found
  (if is_active game.status then pure tt else raise game_already_finished)
  updated ← Games.complete_game game.id (winner_of game user)
  pure (updated, true)

-- The flag is true when the player has won.
unfoldable pub handle_accepted_submission : ℕ → Uuid → Action (Game × Bool)
handle_accepted_submission id user = do
  new_idx ← advance_participant_problem (to_int32 id) user
  total ← count_game_problems (to_int32 id)
  (if total == 0 || ltb new_idx total
      then (do game ← get_game_by_id (to_int32 id); pure (game, false))
      else claim_victory id user)

-- The tests of TimeoutGame; the update that follows is a statement of its own.
unfoldable pub check_timeout : ℕ → Uuid → Action Game
check_timeout id user = do
  game ← or_missing (get_game_by_id (to_int32 id)) game_not_found
  raise_if (not game.is_solo) validation
  raise_if (not (game.creator_id == user)) not_game_creator
  raise_if (not (is_active game.status)) game_not_in_progress
  pure game

unfoldable pub timeout_game : ℕ → Uuid → Action Game
timeout_game id user = do game ← check_timeout id user; Games.timeout_game game.id

unfoldable pub cancel_game : ℕ → Uuid → Action Game
cancel_game id user = transaction do
  game ← or_missing (get_game_for_update (to_int32 id)) game_not_found
  raise_if (not (game.creator_id == user)) not_game_creator
  raise_if (is_finished game.status) cannot_cancel_finished_game
  raise_if (is_cancelled game.status) game_already_cancelled
  Games.cancel_game game.id

unfoldable pub delete_game : ℕ → Uuid → Action (Unit {0})
delete_game id user = do
  game ← or_missing (get_game_by_id (to_int32 id)) game_not_found
  raise_if (not (game.creator_id == user)) not_game_creator
  rows ← Games.delete_game (to_int32 id)
  raise_if (rows == 0) game_not_found
