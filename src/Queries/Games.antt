-- ===== src/Queries/Games.antt =====
-- internal/db/sqlc/games.sql.go
use mathlib.Core.List.{reverse}
use byte_battle.Prelude.{
  ℕ, suc, ◌==◌, if◌then◌else◌, Bool, false, ◌&&◌, ◌||◌, not, Option, none, some, List, [], ◌∷◌,
  ◌++◌, filter, find?, any, update, delete, order_by, length, take, drop, ltb,
}
use byte_battle.Db.Rows.{Db, Game, Solution, Uuid, pending, active, finished, cancelled}
use byte_battle.Db.Exec.{World, Action, ok, err, no_rows, constraint, statement, query, one}

-- WHERE id = $1
abbrev pub game_is : ℕ → Game → Bool
game_is i g = g.id == i

abbrev pub find_game : ℕ → Db → Option Game
find_game i d = find? (game_is i) d.games

-- CreateGameParams
pub record CreateGameParams : Type 0 where
  pub creator_id : Uuid
  pub is_public : Bool
  pub is_solo : Bool
  pub time_limit_minutes : Option ℕ

-- The first serial id that no INTEGER holds.
abbrev pub max_serial : ℕ
max_serial = 2147483648

abbrev pub new_game : CreateGameParams → World → Game
new_game arg w = record {
  id = w.db.next_game_id;
  creator_id = arg.creator_id;
  winner_id = none;
  status = pending;
  started_at = none;
  completed_at = none;
  created_at = w.now;
  updated_at = w.now;
  is_public = arg.is_public;
  invite_token = w.uuids w.calls;
  is_solo = arg.is_solo;
  time_limit_minutes = arg.time_limit_minutes;
}

abbrev pub insert_game : Game → Db → Db
insert_game g d = record d { games = d.games ++ (g ∷ []); next_game_id = suc d.next_game_id }

abbrev pub user_exists : Uuid → Db → Bool
user_exists u d = any (λ r. r.id == u) d.users

abbrev pub token_is : Uuid → Game → Bool
token_is t g = g.invite_token == t

-- The creator is a user, the token is unique, and the sequence has a next value.
unfoldable pub create_game : CreateGameParams → Action Game
create_game arg = statement λ w.
    let g = new_game arg w in
    if ltb g.id max_serial
      && user_exists arg.creator_id w.db
      && not (any (token_is g.invite_token) w.db.games)
    then ok (g, insert_game g w.db)
    else err constraint

unfoldable pub get_game_by_id : ℕ → Action Game
get_game_by_id i = query λ d. one (find_game i d)

-- FOR UPDATE. A transaction of the model runs in one step, which is what the lock is for.
unfoldable pub get_game_for_update : ℕ → Action Game
get_game_for_update i = query λ d. one (find_game i d)

unfoldable pub get_game_by_invite_token : Uuid → Action Game
get_game_by_invite_token t = query λ d. one (find? (token_is t) d.games)

-- UPDATE games SET … WHERE id = $1 RETURNING *
abbrev pub update_game : ℕ → (Game → Game) → Db → Db
update_game i f d = record d { games = update (game_is i) f d.games }

abbrev update_returning : ℕ → (ℕ → Game → Game) → Action Game
update_returning i f = statement λ w. elim (find_game i w.db) [
  | none ↦ err no_rows
  | some g ↦ ok (f w.now g, update_game i (f w.now) w.db)
]

abbrev pub started : ℕ → Game → Game
started now g = record g { status = active; started_at = some now; updated_at = now }

abbrev pub completed : Uuid → ℕ → Game → Game
completed winner now g = record g {
  status = finished;
  winner_id = some winner;
  completed_at = some now;
  updated_at = now;
}

abbrev pub cancelled_at : ℕ → Game → Game
cancelled_at now g = record g { status = cancelled; updated_at = now }

abbrev pub timed_out : ℕ → Game → Game
timed_out now g = record g { status = finished; completed_at = some now; updated_at = now }

unfoldable pub start_game : ℕ → Action Game
start_game i = update_returning i started

-- The winner is a user.
unfoldable pub complete_game : ℕ → Uuid → Action Game
complete_game i winner = statement λ w. elim (find_game i w.db) [
  | none ↦ err no_rows
  | some g ↦
      if user_exists winner w.db
      then ok (completed winner w.now g, update_game i (completed winner w.now) w.db)
      else err constraint
]

unfoldable pub cancel_game : ℕ → Action Game
cancel_game i = update_returning i cancelled_at

unfoldable pub timeout_game : ℕ → Action Game
timeout_game i = update_returning i timed_out

abbrev forget_game : ℕ → Solution → Solution
forget_game i s = record s { game_id = none }

abbrev pub solution_of : ℕ → Solution → Bool
solution_of i s = elim s.game_id [ none ↦ false | some j ↦ j == i ]

-- The rows that refer to the game go with it, or lose the reference.
abbrev pub delete_game_rows : ℕ → Db → Db
delete_game_rows i d = record d {
  games = delete (game_is i) d.games;
  game_participants = delete (λ p. p.game_id == i) d.game_participants;
  game_problems = delete (λ p. p.game_id == i) d.game_problems;
  solutions = update (solution_of i) (forget_game i) d.solutions;
}

-- Returns the number of games deleted.
unfoldable pub delete_game : ℕ → Action ℕ
delete_game i = statement λ w. ok (length (filter (game_is i) w.db.games), delete_game_rows i w.db)

-- The games that a user sees: public, created by the user, or joined.
abbrev pub visible_to : Uuid → Db → Game → Bool
visible_to u d g =
    g.is_public
    || g.creator_id == u
    || any (λ p. p.game_id == g.id && p.user_id == u) d.game_participants

unfoldable pub count_games_for_user : Uuid → Action ℕ
count_games_for_user u = query λ d. ok (length (filter (visible_to u d) d.games))

-- ORDER BY created_at DESC
abbrev newest_first : List Game → List Game
newest_first gs = reverse (order_by (λ g. g.created_at) gs)

-- A negative LIMIT or OFFSET, here a bit pattern with its sign bit set, is an error.
unfoldable pub list_games_for_user : ℕ → ℕ → Uuid → Action (List Game)
list_games_for_user limit offset u = query λ d.
    if ltb limit max_serial && ltb offset max_serial
    then ok (take limit (drop offset (newest_first (filter (visible_to u d) d.games))))
    else err constraint
