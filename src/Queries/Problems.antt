-- ===== src/Queries/Problems.antt =====
-- internal/db/sqlc/problems.sql.go: the statements on one problem of the catalogue.
use text.Mathlib.Text.{◌==◌ as str_eq}
use byte_battle.Prelude.{
  ℕ, suc, ◌==◌, if◌then◌else◌, Bool, true, false, not, ◌&&◌, Option, none, some, [], ◌∷◌, ◌++◌,
  String, find?, any, filter, update, length,
}
use byte_battle.Db.Rows.{Db, Problem, ProblemStatus, Visibility, Uuid}
use byte_battle.Queries.Games.{user_exists}
use byte_battle.Db.Exec.{World, Action, ok, err, constraint, statement, query, one}

unfoldable pub get_problem_catalog_by_slug : String → Action Problem
get_problem_catalog_by_slug slug = query λ d. one (find? (λ p. str_eq p.slug slug) d.problems)

abbrev pub problem_is : ℕ → Problem → Bool
problem_is id p = p.id == id

abbrev pub owned_by : Uuid → Option Uuid → Bool
owned_by u none = false
owned_by u (some v) = v == u

unfoldable pub count_user_problems : Uuid → Action ℕ
count_user_problems owner =
    query λ d. ok (length (filter (λ p. owned_by owner p.owner_user_id) d.problems))

abbrev row_id : Option Problem → Option ℕ
row_id none = none
row_id (some p) = some p.id

unfoldable pub lock_problem_for_update : ℕ → Action ℕ
lock_problem_for_update id = query λ d. one (row_id (find? (problem_is id) d.problems))

abbrev pub at_version : ℕ → ℕ → Problem → Problem
at_version version_id now p = record p { current_version_id = some version_id; updated_at = now }

-- The version must exist; without the problem nothing is updated.
unfoldable pub set_problem_current_version : ℕ → ℕ → Action (Unit {0})
set_problem_current_version id version_id = statement λ w.
    if any (λ v. v.id == version_id) w.db.problem_versions
    then ok (
      tt,
      record w.db { problems = update (problem_is id) (at_version version_id w.now) w.db.problems },
    )
    else err constraint

pub record CreateProblemCatalogParams : Type 0 where
  pub slug : String
  pub owner_user_id : Option Uuid
  pub visibility : Visibility
  pub status : ProblemStatus
  pub title : String

abbrev pub has_slug : String → Problem → Bool
has_slug slug p = str_eq p.slug slug

abbrev pub new_problem : CreateProblemCatalogParams → World → Problem
new_problem arg w = record {
  id = w.db.next_problem_id;
  slug = arg.slug;
  owner_user_id = arg.owner_user_id;
  visibility = arg.visibility;
  status = arg.status;
  title = arg.title;
  current_version_id = none;
  created_at = w.now;
  updated_at = w.now;
}

-- The reference to the owner, if there is one.
abbrev pub owner_exists : Option Uuid → Db → Bool
owner_exists none d = true
owner_exists (some u) d = user_exists u d

-- The slug is unique, and the owner exists.
unfoldable pub create_problem_catalog : CreateProblemCatalogParams → Action Problem
create_problem_catalog arg = statement λ w.
    if not (any (has_slug arg.slug) w.db.problems) && owner_exists arg.owner_user_id w.db
    then ok (
      new_problem arg w,
      record w.db {
        problems = w.db.problems ++ (new_problem arg w ∷ []);
        next_problem_id = suc w.db.next_problem_id;
      },
    )
    else err constraint

abbrev pub shown_as : Visibility → ℕ → Problem → Problem
shown_as v now p = record p { visibility = v; updated_at = now }

unfoldable pub update_problem_visibility : ℕ → Visibility → Action (Unit {0})
update_problem_visibility id v =
    statement λ w.
      ok (tt, record w.db { problems = update (problem_is id) (shown_as v w.now) w.db.problems })
