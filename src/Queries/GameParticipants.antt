-- ===== src/Queries/GameParticipants.antt =====
-- internal/db/sqlc/game_participants.sql.go
use byte_battle.Prelude.{
  ℕ, suc, ◌==◌, if◌then◌else◌, Bool, true, false, ◌&&◌, not, Option, none, some, List, [], ◌∷◌,
  ◌++◌, filter, find?, any, update, delete, order_by, length, ltb, String, map,
}
use byte_battle.Db.Rows.{Db, User, GameParticipant, Uuid}
use byte_battle.Db.Exec.{Action, Result, ok, err, no_rows, constraint, statement, query}
use byte_battle.Queries.Games.{find_game, max_serial}

-- WHERE game_id = $1 AND user_id = $2
abbrev pub is_member : ℕ → Uuid → GameParticipant → Bool
is_member i u p = p.game_id == i && p.user_id == u

abbrev pub in_game : ℕ → GameParticipant → Bool
in_game i p = p.game_id == i

abbrev pub new_participant : ℕ → Uuid → Db → GameParticipant
new_participant i u d = record {
  id = d.next_participant_id;
  game_id = i;
  user_id = u;
  current_problem_index = 0;
}

abbrev pub insert_participant : ℕ → Uuid → Db → Db
insert_participant i u d = record d {
  game_participants = d.game_participants ++ (new_participant i u d ∷ []);
  next_participant_id = suc d.next_participant_id;
}

abbrev is_some : {A : Type 0} → Option A → Bool
is_some none = false
is_some (some _) = true

-- The pair is unique, the game and the user exist, and the sequence has a next value.
unfoldable pub add_game_participant : ℕ → Uuid → Action (Unit {0})
add_game_participant i u = statement λ w.
    if not (any (is_member i u) w.db.game_participants)
      && is_some (find_game i w.db)
      && any (λ r. r.id == u) w.db.users
      && ltb w.db.next_participant_id max_serial
    then ok (tt, insert_participant i u w.db)
    else err constraint

unfoldable pub is_game_participant : ℕ → Uuid → Action Bool
is_game_participant i u = query λ d. ok (any (is_member i u) d.game_participants)

unfoldable pub count_game_participants : ℕ → Action ℕ
count_game_participants i = query λ d. ok (length (filter (in_game i) d.game_participants))

abbrev pub remove_participant : ℕ → Uuid → Db → Db
remove_participant i u d = record d {
  game_participants = delete (is_member i u) d.game_participants;
}

-- Returns the number of rows deleted.
unfoldable pub remove_game_participant : ℕ → Uuid → Action ℕ
remove_game_participant i u =
    statement
      λ w. ok (length (filter (is_member i u) w.db.game_participants), remove_participant i u w.db)

pub record GetParticipantsRow : Type 0 where
  pub game_id : ℕ
  pub user_id : Uuid
  pub name : Option String

abbrev pub name_row : GameParticipant → User → GetParticipantsRow
name_row p u = record { game_id = p.game_id; user_id = p.user_id; name = u.name }

-- JOIN users u ON u.id = gp.user_id
unfoldable pub join_users : List User → List GameParticipant → List GetParticipantsRow
join_users us [] = []
join_users us (p ∷ ps) = map (name_row p) (filter (λ u. u.id == p.user_id) us) ++ join_users us ps

-- ORDER BY gp.id
unfoldable pub get_participants : ℕ → Action (List GetParticipantsRow)
unfolding join_users
get_participants i =
    query
      λ d. ok (join_users d.users (order_by (λ p. p.id) (filter (in_game i) d.game_participants)))

abbrev pub one_of : List ℕ → GameParticipant → Bool
one_of is p = any (λ i. p.game_id == i) is

-- ORDER BY gp.game_id, gp.id: a stable sort by the second key, then by the first.
unfoldable pub get_participants_by_game_ids : List ℕ → Action (List GetParticipantsRow)
unfolding join_users
get_participants_by_game_ids is = query λ d. ok (
    join_users d.users
      (order_by (λ p. p.game_id) (order_by (λ p. p.id) (filter (one_of is) d.game_participants))))

abbrev index_of : Option GameParticipant → Result ℕ
index_of none = err no_rows
index_of (some p) = ok p.current_problem_index

unfoldable pub get_participant_problem_index : ℕ → Uuid → Action ℕ
get_participant_problem_index i u = query λ d. index_of (find? (is_member i u) d.game_participants)

abbrev pub advanced : GameParticipant → GameParticipant
advanced p = record p { current_problem_index = suc p.current_problem_index }

abbrev pub advance_participant : ℕ → Uuid → Db → Db
advance_participant i u d = record d {
  game_participants = update (is_member i u) advanced d.game_participants;
}

-- The index is an INTEGER: past its range the statement fails.
unfoldable pub advance_participant_problem : ℕ → Uuid → Action ℕ
advance_participant_problem i u = statement λ w.
    elim (find? (is_member i u) w.db.game_participants) [
      | none ↦ err no_rows
      | some p ↦
          if ltb (suc p.current_problem_index) max_serial
          then ok (suc p.current_problem_index, advance_participant i u w.db)
          else err constraint
    ]

unfoldable pub get_all_participants_problem_indices : ℕ → Action (List (Uuid × ℕ))
get_all_participants_problem_indices i = query λ d.
    ok (map (λ p. (p.user_id, p.current_problem_index)) (filter (in_game i) d.game_participants))
