-- ===== src/Queries/Users.antt =====
-- internal/db/sqlc/users.sql.go. The lengths of the columns are left out.
use text.Mathlib.Text.{◌==◌ as str_eq}
use byte_battle.Prelude.{
  ℕ, suc, ◌+◌, ◌&&◌, not, ◌==◌, if◌then◌else◌, Bool, true, false, Option, none, some, List, [], ◌∷◌,
  ◌++◌, find?, any, update, String,
}
use byte_battle.Db.Rows.{Db, User, Uuid, Game, GameParticipant, Status, finished}
use byte_battle.Queries.Games.{find_game}
use byte_battle.Db.Exec.{
  World, Action, ok, err, no_rows, constraint, email_taken, username_taken, statement, query, one,
}

abbrev pub has_email : String → User → Bool
has_email email u = str_eq u.email email

abbrev pub has_username : String → User → Bool
has_username username u = str_eq u.username username

abbrev pub user_is : Uuid → User → Bool
user_is id u = u.id == id

pub record CreateUserByEmailParams : Type 0 where
  pub username : String
  pub email : String

abbrev pub new_user : CreateUserByEmailParams → World → User
new_user arg w = record {
  id = w.uuids w.calls;
  username = arg.username;
  email = arg.email;
  password_hash = none;
  email_verified = false;
  rating = some 0;
  created_at = w.now;
  updated_at = w.now;
  name = none;
}

abbrev pub with_users : List User → Db → Db
with_users us d = record d { users = us }

-- The unique indexes are checked in the order of their creation.
unfoldable pub create_user_by_email : CreateUserByEmailParams → Action User
create_user_by_email arg = statement λ w.
    let u = new_user arg w in
    if any (user_is u.id) w.db.users
    then err constraint
    else if any (has_username arg.username) w.db.users
    then err username_taken
    else if any (has_email arg.email) w.db.users
    then err email_taken
    else ok (u, with_users (w.db.users ++ (u ∷ [])) w.db)

unfoldable pub get_user_by_email : String → Action User
get_user_by_email email = query λ d. one (find? (has_email email) d.users)

unfoldable pub get_user_by_id : Uuid → Action User
get_user_by_id id = query λ d. one (find? (user_is id) d.users)

unfoldable pub get_user_by_username : String → Action User
get_user_by_username username = query λ d. one (find? (has_username username) d.users)

abbrev verified : User → User
verified u = record u { email_verified = true }

unfoldable pub set_email_verified : Uuid → Action (Unit {0})
set_email_verified id =
    statement λ w. ok (tt, with_users (update (user_is id) verified w.db.users) w.db)

abbrev renamed : Option String → User → User
renamed name u = record u { name = name }

unfoldable pub update_user_name : Uuid → Option String → Action User
update_user_name id name = statement λ w. elim (find? (user_is id) w.db.users) [
  | none ↦ err no_rows
  | some u ↦ ok (renamed name u, with_users (update (user_is id) (renamed name) w.db.users) w.db)
]

pub record CreateUserParams : Type 0 where
  pub username : String
  pub email : String
  pub password_hash : Option String

abbrev with_password : CreateUserParams → World → User
with_password arg w = record (new_user (record { username = arg.username; email = arg.email }) w) {
  password_hash = arg.password_hash;
}

unfoldable pub create_user : CreateUserParams → Action User
create_user arg = statement λ w.
    let u = with_password arg w in
    if any (user_is u.id) w.db.users
    then err constraint
    else if any (has_username arg.username) w.db.users
    then err username_taken
    else if any (has_email arg.email) w.db.users
    then err email_taken
    else ok (u, with_users (w.db.users ++ (u ∷ [])) w.db)

pub record GetUserStatsRow : Type 0 where
  pub wins : ℕ
  pub games_played : ℕ
  pub problems_solved : ℕ

abbrev is_finished : Status → Bool
is_finished finished = true
is_finished _ = false

abbrev won_by : Uuid → Option Uuid → Bool
won_by u none = false
won_by u (some v) = v == u

-- One more row of `game_participants gp JOIN games g ON g.id = gp.game_id`; games' ids are unique.
abbrev counted : Uuid → GameParticipant → Option Game → GetUserStatsRow → GetUserStatsRow
counted u p none r = r
counted u p (some g) r =
    if p.user_id == u && is_finished g.status
    then record {
      wins = r.wins + (if won_by u g.winner_id && not g.is_solo then 1 else 0);
      games_played = suc r.games_played;
      problems_solved = r.problems_solved + p.current_problem_index;
    }
    else r

unfoldable pub stats_of : Uuid → Db → List GameParticipant → GetUserStatsRow
stats_of u d [] = record { wins = 0; games_played = 0; problems_solved = 0 }
stats_of u d (p ∷ ps) = counted u p (find_game p.game_id d) (stats_of u d ps)

-- The sums are within INTEGER.
unfoldable pub get_user_stats : Uuid → Action GetUserStatsRow
get_user_stats u = query λ d. ok (stats_of u d d.game_participants)
