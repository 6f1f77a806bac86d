-- ===== src/Game/Reading.antt =====
-- Methods that leave the database as it is.
use byte_battle.Prelude.{ℕ, refl, map, arith}
use byte_battle.Db.Rows.{Uuid}
use byte_battle.Db.Exec.{pure, to_int32}
use byte_battle.Db.Reads.{Reads, statement-Reads, >>=-Reads}
use byte_battle.Queries.Games.{get_game_by_id}
use byte_battle.Queries.GameParticipants.{get_participant_problem_index}
use byte_battle.Queries.GameParticipants as Participants
use byte_battle.Queries.GameProblems as Problems
use byte_battle.Game.Read.{
  get_game, participant_problem_index, get_game_problem_by_index, get_game_problem_id_by_index,
  get_participants, get_game_problem_ids, to_participant,
}

pub get_game-Reads : (id : ℕ) → Reads (get_game id)
unfolding get_game get_game_by_id
get_game-Reads id w = statement-Reads _ (λ v r d e. ground arith) w

pub participant_problem_index-Reads : (id : ℕ) (u : Uuid) → Reads (participant_problem_index id u)
unfolding participant_problem_index get_participant_problem_index
participant_problem_index-Reads id u w = statement-Reads _ (λ v r d e. ground arith) w

pub get_game_problem_by_index-Reads : (id i : ℕ) → Reads (get_game_problem_by_index id i)
unfolding get_game_problem_by_index Problems.get_game_problem_by_index
get_game_problem_by_index-Reads id i w = statement-Reads _ (λ v r d e. ground arith) w

pub get_game_problem_id_by_index-Reads : (id i : ℕ) → Reads (get_game_problem_id_by_index id i)
unfolding get_game_problem_id_by_index Problems.get_game_problem_id_by_index
get_game_problem_id_by_index-Reads id i w = statement-Reads _ (λ v r d e. ground arith) w

pub get_participants-Reads : (id : ℕ) → Reads (get_participants id)
unfolding get_participants Participants.get_participants
get_participants-Reads id w =
    >>=-Reads (Participants.get_participants (to_int32 id)) (λ rows. pure (map to_participant rows))
      (statement-Reads _ (λ v rows d e. cc)) (λ rows v. refl) w

pub get_game_problem_ids-Reads : (id : ℕ) → Reads (get_game_problem_ids id)
unfolding get_game_problem_ids Problems.get_game_problem_ids
get_game_problem_ids-Reads id w = statement-Reads _ (λ v rows d e. cc) w
