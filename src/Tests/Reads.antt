-- ===== src/Tests/Reads.antt =====
-- Reading a game that was created, and lists of games.
use byte_battle.Prelude.{
  ℕ, ◌+◌, ◌<◌, ◌≤◌, ◌≡◌, refl, Bool, false, true, none, some, List, [], ◌∷◌, any, filter, length,
  arith,
}
use byte_battle.Prelude.Int.{pos}
use byte_battle.Db.Rows.{Game}
use byte_battle.Db.Exec.{World, ok, err, app, next_call}
use byte_battle.Queries.Games.{CreateGameParams, visible_to}
use byte_battle.Game.Create.{create_game, max_game_problems, is_empty}
use byte_battle.Game.Requests.{create, serve, handle, serve-IsConsistent}
use byte_battle.Game.Invariant.{IsConsistent}
use byte_battle.Game.Read.{
  index_rows, put_index, participant_problem_index, participants_problem_indices,
  get_game_solutions, Participant, get_participants, get_participants_by_game_ids,
  get_game_problem_ids, get_game_problem_id_by_index, list_games,
}
use byte_battle.Game.Founding.{create_game-problem_ids}
use byte_battle.Tests.Data.{fresh, busy, waiting, solo, slugs}
use byte_battle.Tests.Games.{fresh-IsConsistent, fresh-HasProblems}

-- The game that user 1 creates, with the token that the database draws in round trip 1.
abbrev new : Game
new = record waiting { created_at = 100; updated_at = 100; invite_token = 701 }

abbrev asked : CreateGameParams
asked = record { creator_id = 1; is_public = true; is_solo = false; time_limit_minutes = none }

test-created : (create_game 1 slugs true false none fresh).0 ≡ ok new
unfolding create_game byte_battle.Db.Exec.transaction byte_battle.Game.Create.create_rows
    byte_battle.Queries.Games.create_game byte_battle.Db.Exec.statement
    byte_battle.Game.Create.add_problems byte_battle.Game.Create.resolve_problem_version
    byte_battle.Queries.Problems.get_problem_catalog_by_slug
    byte_battle.Queries.GameProblems.add_game_problem
    byte_battle.Queries.GameParticipants.add_game_participant
test-created = refl

-- The world after it.
abbrev after : World
after = (create_game 1 slugs true false none fresh).1

create_game-problem_ids_example : (get_game_problem_ids 1 after).0 ≡ ok slugs
unfolding create_game byte_battle.Db.Exec.transaction byte_battle.Game.Create.create_rows
    byte_battle.Queries.Games.create_game byte_battle.Db.Exec.statement
    byte_battle.Game.Create.add_problems byte_battle.Game.Create.resolve_problem_version
    byte_battle.Queries.Problems.get_problem_catalog_by_slug
    byte_battle.Queries.GameProblems.add_game_problem
    byte_battle.Queries.GameParticipants.add_game_participant
create_game-problem_ids_example =
    create_game-problem_ids 1 slugs true false none fresh new test-created after refl refl
      fresh-IsConsistent fresh-HasProblems

abbrev user_1 : Participant
user_1 = record { id = 1; name = some "user" }

abbrev user_2 : Participant
user_2 = record { id = 2; name = some "user" }

abbrev user_3 : Participant
user_3 = record { id = 3; name = some "user" }

abbrev players : List (ℕ × List Participant)
players = (1, user_1 ∷ user_2 ∷ []) ∷ (2, user_1 ∷ user_3 ∷ []) ∷ []

test-batch : (get_participants_by_game_ids (2 ∷ 1 ∷ []) busy).0 ≡ ok players
unfolding get_participants_by_game_ids
    byte_battle.Queries.GameParticipants.get_participants_by_game_ids byte_battle.Db.Exec.statement
    byte_battle.Game.Read.group byte_battle.Prelude.order_by byte_battle.Game.Read.append_at
test-batch = refl

test-single : (get_participants 2 busy).0 ≡ ok (user_1 ∷ user_3 ∷ [])
unfolding get_participants byte_battle.Queries.GameParticipants.get_participants
    byte_battle.Db.Exec.statement byte_battle.Prelude.order_by
test-single = refl

-- User 2 does not see the private game 2.
test-list : (list_games (pos 0) (pos 0) 2 busy).0 ≡ ok (solo ∷ waiting ∷ [], 2)
unfolding list_games byte_battle.Queries.Games.count_games_for_user byte_battle.Db.Exec.statement
    byte_battle.Queries.Games.list_games_for_user byte_battle.Prelude.order_by
test-list = refl

test-places : (participants_problem_indices 1 after).0 ≡ ok ((1, 0) ∷ [])
unfolding participants_problem_indices index_rows put_index
    byte_battle.Queries.GameParticipants.get_all_participants_problem_indices create_game
    byte_battle.Db.Exec.transaction byte_battle.Game.Create.create_rows
    byte_battle.Queries.Games.create_game byte_battle.Db.Exec.statement
    byte_battle.Game.Create.add_problems byte_battle.Game.Create.resolve_problem_version
    byte_battle.Queries.Problems.get_problem_catalog_by_slug
    byte_battle.Queries.GameProblems.add_game_problem
    byte_battle.Queries.GameParticipants.add_game_participant
test-places = refl

after-IsConsistent : IsConsistent after.db
unfolding create_game serve byte_battle.Db.Exec.transaction handle
after-IsConsistent =
    serve-IsConsistent ((100, create 1 slugs true false none) ∷ []) fresh fresh-IsConsistent
