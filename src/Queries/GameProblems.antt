-- ===== src/Queries/GameProblems.antt =====
-- internal/db/sqlc/game_problems.sql.go
use byte_battle.Prelude.{
  ℕ, ◌==◌, if◌then◌else◌, Bool, true, false, ◌&&◌, not, Option, none, some, List, [], ◌∷◌, ◌++◌,
  filter, find?, any, order_by, length, ltb, String, map,
}
use byte_battle.Db.Rows.{Db, GameProblem, ProblemVersion}
use byte_battle.Db.Exec.{Action, Result, ok, err, no_rows, constraint, statement, query}
use byte_battle.Queries.Games.{find_game}

abbrev pub at_index : ℕ → ℕ → GameProblem → Bool
at_index i n p = p.game_id == i && p.problem_index == n

abbrev pub problem_in_game : ℕ → GameProblem → Bool
problem_in_game i p = p.game_id == i

abbrev pub insert_game_problem : GameProblem → Db → Db
insert_game_problem p d = record d { game_problems = d.game_problems ++ (p ∷ []) }

abbrev is_some : {A : Type 0} → Option A → Bool
is_some none = false
is_some (some _) = true

-- The primary key, the references and the CHECK of migration 000009.
unfoldable pub add_game_problem : GameProblem → Action (Unit {0})
add_game_problem p = statement λ w.
    if ltb p.problem_index 20
      && not (any (at_index p.game_id p.problem_index) w.db.game_problems)
      && is_some (find_game p.game_id w.db)
      && any (λ v. v.id == p.problem_version_id) w.db.problem_versions
    then ok (tt, insert_game_problem p w.db)
    else err constraint

unfoldable pub get_game_problem_ids : ℕ → Action (List String)
get_game_problem_ids i = query λ d. ok (
    map (λ p. p.problem_id)
      (order_by (λ p. p.problem_index) (filter (problem_in_game i) d.game_problems)))

-- ORDER BY game_id, problem_index
unfoldable pub get_game_problem_ids_by_game_ids : List ℕ → Action (List (ℕ × String))
get_game_problem_ids_by_game_ids is = query λ d. ok (
    map (λ p. (p.game_id, p.problem_id))
      (order_by (λ p. p.game_id)
        (order_by (λ p. p.problem_index)
          (filter (λ p. any (λ i. p.game_id == i) is) d.game_problems))))

unfoldable pub count_game_problems : ℕ → Action ℕ
count_game_problems i = query λ d. ok (length (filter (problem_in_game i) d.game_problems))

abbrev id_of : Option GameProblem → Result String
id_of none = err no_rows
id_of (some p) = ok p.problem_id

unfoldable pub get_game_problem_id_by_index : ℕ → ℕ → Action String
get_game_problem_id_by_index i n = query λ d. id_of (find? (at_index i n) d.game_problems)

pub record GetGameProblemByIndexRow : Type 0 where
  pub problem_id : String
  pub problem_version_id : ℕ
  pub artifact_path : String

abbrev with_version : GameProblem → Option ProblemVersion → Result GetGameProblemByIndexRow
with_version p none = err no_rows
with_version p (some v) = ok (record {
  problem_id = p.problem_id;
  problem_version_id = p.problem_version_id;
  artifact_path = v.artifact_path;
})

-- JOIN problem_versions pv ON pv.id = gp.problem_version_id
unfoldable pub get_game_problem_by_index : ℕ → ℕ → Action GetGameProblemByIndexRow
get_game_problem_by_index i n = query λ d. elim (find? (at_index i n) d.game_problems) [
  | none ↦ err no_rows
  | some p ↦ with_version p (find? (λ v. v.id == p.problem_version_id) d.problem_versions)
]
