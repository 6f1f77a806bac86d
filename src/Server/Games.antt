-- ===== src/Server/Games.antt =====
-- internal/server/handler.go: the handlers on games. The user is the one of the request's session.
use byte_battle.Prelude.{
  ℕ, ◌-◌, ◌%◌, ◌==◌, ltb, if◌then◌else◌, Bool, true, false, ◌||◌, Option, none, some, List, map,
  String, any,
}
use mathlib.Core.Option
use byte_battle.Prelude.Int.{ℤ, pos, negsuc}
use byte_battle.Db.Rows.{Game, Uuid, Time, Status}
use byte_battle.Db.Exec.{Action, pure, ◌>>=◌, ◌>>◌}
use byte_battle.Queries.Solutions.{GetGameSolutionsRow}
use byte_battle.Game.Create as Create
use byte_battle.Game.Members as Members
use byte_battle.Game.Progress as Progress
use byte_battle.Game.Read as Read
use byte_battle.Game.Read.{Participant}
use byte_battle.Game.Batch.{values_at}

-- `api.Game`
pub record ApiGame : Type 0 where
  pub id : ℕ
  pub is_public : Bool
  pub is_solo : Bool
  pub problem_ids : List String
  pub creator_id : Uuid
  pub status : Status
  pub participants : List Participant
  pub created_at : Time
  pub updated_at : Time
  pub started_at : Option Time
  pub winner_id : Option Uuid
  pub invite_token : Option Uuid
  pub time_limit_minutes : Option ℤ

-- int16(x), as a bit pattern, and int(x) of such a pattern.
abbrev pub int16_of : ℤ → ℕ
int16_of (pos n) = n % 65536
int16_of (negsuc n) = 65535 - n % 65536

abbrev pub int_of_int16 : ℕ → ℤ
int_of_int16 n = if ltb n 32768 then pos n else negsuc (65535 - n)

-- `toAPIGame`
unfoldable pub to_api_game : Game → List Participant → List String → Bool → ApiGame
to_api_game g participants problem_ids show_token = record {
  id = g.id;
  is_public = g.is_public;
  is_solo = g.is_solo;
  problem_ids = problem_ids;
  creator_id = g.creator_id;
  status = g.status;
  participants = participants;
  created_at = g.created_at;
  updated_at = g.updated_at;
  started_at = g.started_at;
  winner_id = g.winner_id;
  invite_token = if show_token then some g.invite_token else none;
  time_limit_minutes = Option.map int_of_int16 g.time_limit_minutes;
}

unfoldable pub enrich_game : Game → Bool → Action ApiGame
enrich_game game show_token = do
  participants ← Read.get_participants game.id
  problem_ids ← Read.get_game_problem_ids game.id
  pure (to_api_game game participants problem_ids show_token)

unfoldable pub is_participant_of : Uuid → List Participant → Bool
is_participant_of user participants = any (λ p. p.id == user) participants

abbrev pub or_default : {A : Type 0} → A → Option A → A
or_default a none = a
or_default a (some b) = b

-- m[k] of a map whose missing keys give nil.
abbrev entry_of : Uuid → List (ℕ × List Participant) → List (ℕ × List String) → Game → ApiGame
entry_of user participant_map problem_ids_map g =
    let participants = values_at g.id participant_map in
    to_api_game g participants (values_at g.id problem_ids_map)
      (g.is_public || is_participant_of user participants)

unfoldable pub list_games : Option ℤ → Option ℤ → Uuid → Action (List ApiGame × ℕ)
list_games limit offset user = do
  found ← Read.list_games (or_default (pos 10) limit) (or_default (pos 0) offset) user
  participant_map ← Read.get_participants_by_game_ids (map (λ g. g.id) found.0)
  problem_ids_map ← Read.get_game_problem_ids_by_game_ids (map (λ g. g.id) found.0)
  pure (map (entry_of user participant_map problem_ids_map) found.0, found.1)

-- `api.CreateGameRequest`
pub record CreateGameRequest : Type 0 where
  pub problem_ids : List String
  pub is_public : Option Bool
  pub is_solo : Option Bool
  pub time_limit_minutes : Option ℤ

unfoldable pub create_game : CreateGameRequest → Uuid → Action ApiGame
create_game body user = do
  let is_solo = or_default false body.is_solo
  let is_public = if is_solo then false else or_default true body.is_public
  game ←
      Create.create_game user body.problem_ids is_public is_solo
        (Option.map int16_of body.time_limit_minutes)
  enrich_game game true

unfoldable pub get_game : ℕ → Uuid → Action ApiGame
get_game id user = do game ← Read.get_game id; Read.can_access_game game user; enrich_game game true

unfoldable pub delete_game : ℕ → Uuid → Action Bool
delete_game id user = do Progress.delete_game id user; pure true

unfoldable pub start_game : ℕ → Uuid → Action ApiGame
start_game id user = do game ← Progress.start_game id user; enrich_game game true

unfoldable pub complete_game : ℕ → Uuid → Uuid → Action ApiGame
complete_game id winner user = do
  game ← Progress.complete_game id user winner
  enrich_game game true

unfoldable pub leave_game : ℕ → Uuid → Action ApiGame
leave_game id user = do game ← Members.leave_game id user; enrich_game game game.is_public

unfoldable pub cancel_game : ℕ → Uuid → Action ApiGame
cancel_game id user = do game ← Progress.cancel_game id user; enrich_game game true

-- `api.GameSolution`
pub record GameSolution : Type 0 where
  pub user_id : Uuid
  pub name : Option String
  pub problem_id : String
  pub code : String
  pub language : String
  pub solved_at : Time

abbrev to_game_solution : GetGameSolutionsRow → GameSolution
to_game_solution r = record {
  user_id = r.user_id;
  name = r.name;
  problem_id = r.problem_id;
  code = r.code;
  language = r.language;
  solved_at = r.created_at;
}

unfoldable pub get_game_solutions : ℕ → Uuid → Action (List GameSolution)
get_game_solutions id user = do
  game ← Read.get_game id
  Read.can_access_game game user
  rows ← Read.get_game_solutions id
  pure (map to_game_solution rows)

unfoldable pub get_game_by_token : Uuid → Action ApiGame
get_game_by_token token = do game ← Members.get_game_by_token token; enrich_game game game.is_public

unfoldable pub join_game_by_token : Uuid → Uuid → Action ApiGame
join_game_by_token token user = do
  game ← Members.join_game_by_token token user
  enrich_game game true

unfoldable pub timeout_game : ℕ → Uuid → Action ApiGame
timeout_game id user = do game ← Progress.timeout_game id user; enrich_game game false
