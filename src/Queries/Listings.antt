-- ===== src/Queries/Listings.antt =====
-- internal/db/sqlc/problems.sql.go: the listings of problems and the joins with their current versions.
-- `contains x q` is what PostgreSQL's `x ILIKE '%' || q || '%'` says.
use text.Mathlib.Text.{◌==◌ as str_eq}
use mathlib.Core.List.{reverse}
use byte_battle.Prelude.{
  ℕ, ◌==◌, ltb, if◌then◌else◌, Bool, true, false, ◌&&◌, ◌||◌, Option, none, some, List, [], ◌∷◌,
  String, map, find?, filter, length, take, drop, order_by,
}
use byte_battle.Db.Rows.{
  Db, Problem, ProblemVersion, ProblemStatus, published, archived, Visibility, public, unlisted,
  private, Uuid, Time,
}
use byte_battle.Db.Exec.{Action, Result, ok, err, no_rows, constraint, query}
use byte_battle.Queries.Games.{max_serial}
use byte_battle.Queries.Problems.{has_slug, owned_by}

abbrev pub is_published : ProblemStatus → Bool
is_published published = true
is_published archived = false

abbrev pub is_public : Visibility → Bool
is_public public = true
is_public unlisted = false
is_public private = false

abbrev pub is_listed : Problem → Bool
is_listed p = is_published p.status && is_public p.visibility

abbrev pub current_version : Db → Option ℕ → Option ProblemVersion
current_version d none = none
current_version d (some id) = find? (λ v. v.id == id) d.problem_versions

-- ORDER BY created_at DESC
abbrev pub newest_first : List Problem → List Problem
newest_first ps = reverse (order_by (λ p. p.created_at) ps)

abbrev paired :
    Problem
    → Option ProblemVersion
    → List (Problem × ProblemVersion)
    → List (Problem × ProblemVersion)
paired p none rest = rest
paired p (some v) rest = (p, v) ∷ rest

-- JOIN problem_versions pv ON pv.id = p.current_version_id
unfoldable pub join_versions : Db → List Problem → List (Problem × ProblemVersion)
join_versions d [] = []
join_versions d (p ∷ ps) = paired p (current_version d p.current_version_id) (join_versions d ps)

-- problems.* with the artifact's path: GetProblemWithArtifactBySlugRow and
-- ListPublishedPublicProblemsWithArtifactRow.
pub record ProblemWithArtifact : Type 0 where
  pub problem : Problem
  pub artifact_path : String

abbrev pub with_artifact : Problem × ProblemVersion → ProblemWithArtifact
with_artifact (p, v) = record { problem = p; artifact_path = v.artifact_path }

abbrev first : List (Problem × ProblemVersion) → Result ProblemWithArtifact
first [] = err no_rows
first (row ∷ _) = ok (with_artifact row)

unfoldable pub get_problem_with_artifact_by_slug : String → Action ProblemWithArtifact
get_problem_with_artifact_by_slug slug =
    query λ d. first (join_versions d (filter (has_slug slug) d.problems))

unfoldable pub list_published_public_problems : Action (List Problem)
list_published_public_problems = query λ d. ok (newest_first (filter is_listed d.problems))

unfoldable pub list_published_public_problems_with_artifact : Action (List ProblemWithArtifact)
list_published_public_problems_with_artifact =
    query λ d. ok (map with_artifact (join_versions d (newest_first (filter is_listed d.problems))))

pub record ListMyProblemsRow : Type 0 where
  pub id : ℕ
  pub slug : String
  pub title : String
  pub visibility : Visibility
  pub status : ProblemStatus
  pub current_version_id : Option ℕ
  pub owner_user_id : Option Uuid
  pub created_at : Time
  pub updated_at : Time
  pub artifact_path : Option String
  pub version : Option ℕ

abbrev path_of : Option ProblemVersion → Option String
path_of none = none
path_of (some v) = some v.artifact_path

abbrev number_of : Option ProblemVersion → Option ℕ
number_of none = none
number_of (some v) = some v.version

-- LEFT JOIN problem_versions pv ON pv.id = p.current_version_id
abbrev my_row : Db → Problem → ListMyProblemsRow
my_row d p = record {
  id = p.id;
  slug = p.slug;
  title = p.title;
  visibility = p.visibility;
  status = p.status;
  current_version_id = p.current_version_id;
  owner_user_id = p.owner_user_id;
  created_at = p.created_at;
  updated_at = p.updated_at;
  artifact_path = path_of (current_version d p.current_version_id);
  version = number_of (current_version d p.current_version_id);
}

pub record ListPublicProblemsSearchRow : Type 0 where
  pub id : ℕ
  pub slug : String
  pub title : String
  pub difficulty : String
  pub limits_time_ms : ℕ
  pub limits_memory_kb : ℕ
  pub test_case_count : ℕ

abbrev pub search_row : Problem × ProblemVersion → ListPublicProblemsSearchRow
search_row (p, v) = record {
  id = p.id;
  slug = p.slug;
  title = p.title;
  difficulty = v.difficulty;
  limits_time_ms = v.limits_time_ms;
  limits_memory_kb = v.limits_memory_kb;
  test_case_count = v.test_case_count;
}

module _ (contains : String → String → Bool) where
  abbrev pub is_match : String → Problem → Bool
  is_match q p = str_eq q "" || (contains p.title q || contains p.slug q)

  unfoldable pub count_public_problems : String → Action ℕ
  count_public_problems q =
      query λ d. ok (length (filter (λ p. is_listed p && is_match q p) d.problems))

  -- The rows that the search selects, in their order.
  abbrev pub search_rows : Db → String → List (Problem × ProblemVersion)
  search_rows d q =
      join_versions d (newest_first (filter (λ p. is_listed p && is_match q p) d.problems))

  -- A negative LIMIT or OFFSET, here a bit pattern with its sign bit set, is an error.
  unfoldable pub list_public_problems_search :
      ℕ → ℕ → String → Action (List ListPublicProblemsSearchRow)
  list_public_problems_search limit offset q = query λ d.
      if ltb limit max_serial && ltb offset max_serial
      then ok (map search_row (take limit (drop offset (search_rows d q))))
      else err constraint

  unfoldable pub list_my_problems : Uuid → String → Action (List ListMyProblemsRow)
  list_my_problems owner q = query λ d. ok (
      map (my_row d)
        (newest_first (filter (λ p. owned_by owner p.owner_user_id && is_match q p) d.problems)))
