-- ===== src/Game/Create.antt =====
-- internal/service/game_service.go: CreateGame and resolveProblemVersion.
use text.Mathlib.Text.{◌==◌ as str_eq}
use byte_battle.Prelude.{
  ℕ, suc, ◌==◌, ltb, Bool, true, false, ◌&&◌, not, Option, none, some, List, [], ◌∷◌, length, any,
  String,
}
use byte_battle.ApiErr.{validation, problem_not_found}
use byte_battle.Db.Rows.{Game, Uuid, Visibility, private}
use byte_battle.Db.Exec.{
  Action, app, pure, raise, raise_if, ◌>>=◌, ◌>>◌, or_missing, transaction, to_int32,
}
use byte_battle.Queries.Games.{CreateGameParams}
use byte_battle.Queries.Games as Games
use byte_battle.Queries.GameParticipants.{add_game_participant}
use byte_battle.Queries.GameProblems.{add_game_problem}
use byte_battle.Queries.Problems.{get_problem_catalog_by_slug}

abbrev pub max_game_problems : ℕ
max_game_problems = 20

abbrev pub is_owner : Uuid → Option Uuid → Bool
is_owner u none = false
is_owner u (some v) = v == u

abbrev pub is_private : Visibility → Bool
is_private private = true
is_private _ = false

abbrev current_version : Option ℕ → Action ℕ
current_version none = raise (app problem_not_found)
current_version (some v) = pure v

unfoldable pub resolve_problem_version : Uuid → String → Action ℕ
resolve_problem_version requester slug = do
  catalog ← or_missing (get_problem_catalog_by_slug slug) problem_not_found
  raise_if (is_private catalog.visibility && not (is_owner requester catalog.owner_user_id))
      problem_not_found
  current_version catalog.current_version_id

-- The loop over the slugs, from index `idx` on.
unfoldable pub add_problems : Uuid → ℕ → ℕ → List String → Action (Unit {0})
add_problems creator game_id idx [] = pure tt
add_problems creator game_id idx (slug ∷ slugs) = do
  version_id ← resolve_problem_version creator slug
  add_game_problem (record {
    game_id = game_id;
    problem_index = to_int32 idx;
    problem_id = slug;
    problem_version_id = version_id;
  })
  add_problems creator game_id (suc idx) slugs

abbrev pub is_empty : String → Bool
is_empty slug = str_eq slug ""

-- The statements of CreateGame's transaction.
unfoldable pub create_rows : CreateGameParams → List String → Action Game
create_rows arg slugs = do
  game ← Games.create_game arg
  add_problems arg.creator_id game.id 0 slugs
  add_game_participant game.id arg.creator_id
  pure game

unfoldable pub create_game : Uuid → List String → Bool → Bool → Option ℕ → Action Game
create_game creator slugs is_public is_solo time_limit = do
  raise_if (length slugs == 0) validation
  raise_if (ltb max_game_problems (length slugs)) validation
  raise_if (any is_empty slugs) validation
  transaction (
      create_rows
        (record {
          creator_id = creator;
          is_public = is_public;
          is_solo = is_solo;
          time_limit_minutes = time_limit;
        })
        slugs)
