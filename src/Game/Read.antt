-- ===== src/Game/Read.antt =====
-- internal/service/game_service.go: the methods that only read.
use byte_battle.Prelude.{
  ℕ, ◌==◌, if◌then◌else◌, Bool, not, Option, List, [], ◌∷◌, ◌++◌, map, String,
}
use byte_battle.Prelude.Int.{ℤ, pos, is_negative, is_at_most_zero, exceeds, int32_of}
use byte_battle.ApiErr.{game_not_found, not_participant, game_not_finished}
use byte_battle.Db.Rows.{Game, Uuid}
use byte_battle.Db.Exec.{Action, pure, raise_if, ◌>>=◌, ◌>>◌, or_missing, to_int32}
use byte_battle.Queries.Games.{get_game_by_id, count_games_for_user, list_games_for_user}
use byte_battle.Queries.GameParticipants.{
  GetParticipantsRow, is_game_participant, get_participant_problem_index,
  get_all_participants_problem_indices,
}
use byte_battle.Queries.Solutions.{GetGameSolutionsRow}
use byte_battle.Queries.Solutions as Solutions
use byte_battle.Game.Members.{is_finished}
use byte_battle.Queries.GameParticipants as Participants
use byte_battle.Queries.GameProblems as GameProblems
use byte_battle.Queries.GameProblems.{GetGameProblemByIndexRow}

pub record Participant : Type 0 where
  pub id : Uuid
  pub name : Option String

abbrev pub to_participant : GetParticipantsRow → Participant
to_participant r = record { id = r.user_id; name = r.name }

unfoldable pub get_participants : ℕ → Action (List Participant)
get_participants game_id = do
  rows ← Participants.get_participants (to_int32 game_id)
  pure (map to_participant rows)

unfoldable pub is_participant : ℕ → Uuid → Action Bool
is_participant game_id user = is_game_participant (to_int32 game_id) user

-- A Go map from int32 to slices: m[k] = append(m[k], v).
module _ {A : Type 0} where
  unfoldable pub append_at : ℕ → A → List (ℕ × List A) → List (ℕ × List A)
  append_at k v [] = (k, v ∷ []) ∷ []
  append_at k v ((j, vs) ∷ m) =
      if j == k then (j, vs ++ (v ∷ [])) ∷ m else (j, vs) ∷ append_at k v m

  -- The loop over the rows.
  unfoldable pub group : List (ℕ × List A) → List (ℕ × A) → List (ℕ × List A)
  group m [] = m
  group m ((k, v) ∷ rows) = group (append_at k v m) rows

abbrev pub keyed : GetParticipantsRow → ℕ × Participant
keyed r = (r.game_id, to_participant r)

unfoldable pub get_participants_by_game_ids : List ℕ → Action (List (ℕ × List Participant))
get_participants_by_game_ids game_ids = do
  rows ← Participants.get_participants_by_game_ids game_ids
  pure (group [] (map keyed rows))

unfoldable pub get_game_problem_ids : ℕ → Action (List String)
get_game_problem_ids game_id = GameProblems.get_game_problem_ids game_id

unfoldable pub get_game_problem_id_by_index : ℕ → ℕ → Action String
get_game_problem_id_by_index game_id problem_index =
    or_missing (GameProblems.get_game_problem_id_by_index game_id problem_index) game_not_found

unfoldable pub get_game_problem_by_index : ℕ → ℕ → Action GetGameProblemByIndexRow
get_game_problem_by_index game_id problem_index =
    or_missing (GameProblems.get_game_problem_by_index game_id problem_index) game_not_found

unfoldable pub get_game_problem_ids_by_game_ids : List ℕ → Action (List (ℕ × List String))
get_game_problem_ids_by_game_ids game_ids = do
  rows ← GameProblems.get_game_problem_ids_by_game_ids game_ids
  pure (group [] rows)

unfoldable pub get_game : ℕ → Action Game
get_game id = or_missing (get_game_by_id (to_int32 id)) game_not_found

unfoldable pub can_access_game : Game → Uuid → Action (Unit {0})
can_access_game game user =
    if game.is_public
    then pure tt
    else (do joined ← is_game_participant game.id user; raise_if (not joined) not_participant)

abbrev pub clamp_limit : ℤ → ℤ
clamp_limit limit =
    let l = if is_at_most_zero limit then pos 10 else limit in if exceeds l 100 then pos 100 else l

abbrev pub clamp_offset : ℤ → ℤ
clamp_offset offset = if is_negative offset then pos 0 else offset

unfoldable pub list_games : ℤ → ℤ → Uuid → Action (List Game × ℕ)
list_games limit offset user = do
  total ← count_games_for_user user
  games ← list_games_for_user (int32_of (clamp_limit limit)) (int32_of (clamp_offset offset)) user
  pure (games, total)

unfoldable pub participant_problem_index : ℕ → Uuid → Action ℕ
participant_problem_index game_id user =
    or_missing (get_participant_problem_index (to_int32 game_id) user) not_participant

-- A Go map from the texts of user ids: a later row of the same user replaces an earlier one.
unfoldable pub put_index : Uuid → ℕ → List (Uuid × ℕ) → List (Uuid × ℕ)
put_index u n [] = (u, n) ∷ []
put_index u n ((v, k) ∷ m) = if v == u then (v, n) ∷ m else (v, k) ∷ put_index u n m

-- The loop over the rows.
unfoldable pub index_rows : List (Uuid × ℕ) → List (Uuid × ℕ) → List (Uuid × ℕ)
index_rows m [] = m
index_rows m ((u, n) ∷ rows) = index_rows (put_index u n m) rows

unfoldable pub participants_problem_indices : ℕ → Action (List (Uuid × ℕ))
participants_problem_indices game_id = do
  rows ← get_all_participants_problem_indices (to_int32 game_id)
  pure (index_rows [] rows)

unfoldable pub get_game_solutions : ℕ → Action (List GetGameSolutionsRow)
get_game_solutions game_id = do
  game ← or_missing (get_game_by_id (to_int32 game_id)) game_not_found
  raise_if (not (is_finished game.status)) game_not_finished
  Solutions.get_game_solutions (to_int32 game_id)
