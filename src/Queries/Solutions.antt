-- ===== src/Queries/Solutions.antt =====
-- internal/db/sqlc/solutions.sql.go
use text.Mathlib.Text.{◌==◌ as str_eq}
use byte_battle.Prelude.{
  ℕ, suc, ◌==◌, ltb, if◌then◌else◌, Bool, true, false, ◌&&◌, not, Option, none, some, List, [], ◌∷◌,
  ◌++◌, filter, any, map, order_by, String,
}
use byte_battle.Db.Rows.{Db, Solution, SolutionStatus, passed, User, Uuid, Time}
use byte_battle.Db.Exec.{World, Action, ok, err, constraint, statement, query}
use byte_battle.Queries.Games.{max_serial, user_exists, game_is, solution_of}

pub record GetGameSolutionsRow : Type 0 where
  pub user_id : Uuid
  pub problem_id : String
  pub code : String
  pub language : String
  pub created_at : Time
  pub username : String
  pub name : Option String

abbrev solution_row : Solution → User → GetGameSolutionsRow
solution_row s u = record {
  user_id = s.user_id;
  problem_id = s.problem_id;
  code = s.code;
  language = s.language;
  created_at = s.created_at;
  username = u.username;
  name = u.name;
}

abbrev is_passed : SolutionStatus → Bool
is_passed passed = true
is_passed _ = false

-- JOIN users u ON u.id = s.user_id
unfoldable pub join_authors : List User → List Solution → List GetGameSolutionsRow
join_authors us [] = []
join_authors us (s ∷ ss) =
    map (solution_row s) (filter (λ u. u.id == s.user_id) us) ++ join_authors us ss

-- WHERE s.game_id = $1 AND s.status = 'passed'
abbrev pub shown : ℕ → Solution → Bool
shown i s = solution_of i s && is_passed s.status

-- ORDER BY s.created_at
unfoldable pub get_game_solutions : ℕ → Action (List GetGameSolutionsRow)
unfolding join_authors
get_game_solutions i =
    query
      λ d. ok (join_authors d.users (order_by (λ s. s.created_at) (filter (shown i) d.solutions)))

pub record InsertSolutionParams : Type 0 where
  pub user_id : Uuid
  pub problem_id : String
  pub problem_version_id : ℕ
  pub game_id : Option ℕ
  pub code : String
  pub language : String

-- The key (user_id, game_id, problem_id); a NULL is equal to nothing.
abbrev pub same_key : InsertSolutionParams → Solution → Bool
same_key arg s =
    s.user_id == arg.user_id
    && elim arg.game_id [ none ↦ false | some i ↦ solution_of i s ]
    && str_eq s.problem_id arg.problem_id

abbrev game_exists : Option ℕ → Db → Bool
game_exists none d = true
game_exists (some i) d = any (game_is i) d.games

abbrev pub new_solution : InsertSolutionParams → World → Solution
new_solution arg w = record {
  id = w.db.next_solution_id;
  user_id = arg.user_id;
  problem_id = arg.problem_id;
  game_id = arg.game_id;
  code = arg.code;
  language = arg.language;
  status = passed;
  execution_time = none;
  memory_used = none;
  created_at = w.now;
  updated_at = w.now;
  problem_version_id = arg.problem_version_id;
}

-- The sequence has a next value; a row with the same key makes the statement do nothing but draw
-- that value; the user, the game and the version exist.
unfoldable pub insert_solution : InsertSolutionParams → Action (Unit {0})
insert_solution arg = statement λ w.
    let drawn = record w.db { next_solution_id = suc w.db.next_solution_id } in
    if not (ltb w.db.next_solution_id max_serial)
    then err constraint
    else if any (same_key arg) w.db.solutions
    then ok (tt, drawn)
    else if user_exists arg.user_id w.db
        && game_exists arg.game_id w.db
        && any (λ v. v.id == arg.problem_version_id) w.db.problem_versions
    then ok (tt, record drawn { solutions = w.db.solutions ++ (new_solution arg w ∷ []) })
    else err constraint
