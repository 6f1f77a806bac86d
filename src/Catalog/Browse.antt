-- ===== src/Catalog/Browse.antt =====
-- internal/service/problem_service.go: what users see of the catalogue. ILIKE and the reading of a
-- problem's directory are parameters.
use byte_battle.Prelude.{
  ℕ, ◌/◌, Bool, true, false, ◌&&◌, not, Option, none, some, List, map, String,
}
use byte_battle.Prelude.Int.{ℤ, int32_of}
use byte_battle.ApiErr.{problem_not_found}
use byte_battle.Db.Rows.{Visibility, public, unlisted, private, ProblemStatus, Uuid}
use byte_battle.Db.Exec.{
  World, Action, Result, ok, err, app, no_problem_files, pure, raise_if, ◌>>=◌, ◌>>◌, or_missing,
}
use byte_battle.Queries.Problems.{get_problem_catalog_by_slug, owned_by}
use byte_battle.Queries.Listings.{
  is_published, ProblemWithArtifact, get_problem_with_artifact_by_slug, ListMyProblemsRow,
  ListPublicProblemsSearchRow, count_public_problems, list_public_problems_search,
}
use byte_battle.Queries.Listings as Listings
use byte_battle.Problem.{Problem}
use byte_battle.Problem.Store.{Cache, get_by_path}

-- `problems.ProblemMeta`
pub record ProblemMeta : Type 0 where
  pub slug : String
  pub title : String
  pub difficulty : String
  pub time_limit_ms : ℕ
  pub memory_limit_mb : ℕ
  pub test_case_count : ℕ

abbrev pub meta_of : ListPublicProblemsSearchRow → ProblemMeta
meta_of r = record {
  slug = r.slug;
  title = r.title;
  difficulty = r.difficulty;
  time_limit_ms = r.limits_time_ms;
  memory_limit_mb = r.limits_memory_kb / 1024;
  test_case_count = r.test_case_count;
}

pub record MyProblemRow : Type 0 where
  pub slug : String
  pub title : String
  pub visibility : Visibility
  pub status : ProblemStatus
  pub version : Option ℕ

abbrev my_problem : ListMyProblemsRow → MyProblemRow
my_problem r = record {
  slug = r.slug;
  title = r.title;
  visibility = r.visibility;
  status = r.status;
  version = r.version;
}

module _ (contains : String → String → Bool) where
  unfoldable pub list_problems : String → ℤ → ℤ → Action (List ProblemMeta × ℕ)
  list_problems q limit offset = do
    total ← count_public_problems contains q
    rows ← list_public_problems_search contains (int32_of limit) (int32_of offset) q
    pure (map meta_of rows, total)

  unfoldable pub list_my_problems : Uuid → String → Action (List MyProblemRow)
  list_my_problems owner q = do
    rows ← Listings.list_my_problems contains owner q
    pure (map my_problem rows)

abbrev pub is_private : Visibility → Bool
is_private private = true
is_private public = false
is_private unlisted = false

abbrev pub is_some : {A : Type 0} → Option A → Bool
is_some none = false
is_some (some _) = true

-- Any error of the second lookup is answered as a missing problem.
abbrev found_row : Result ProblemWithArtifact → Result ProblemWithArtifact
found_row (ok r) = ok r
found_row (err e) = err (app problem_not_found)

abbrev or_not_found : Action ProblemWithArtifact → Action ProblemWithArtifact
or_not_found m w = let (r, w') = m w in (found_row r, w')

-- The tests of GetProblem, and the path of the problem's files.
unfoldable pub artifact_of : String → Uuid → Action String
artifact_of slug requester = do
  catalog ← or_missing (get_problem_catalog_by_slug slug) problem_not_found
  raise_if (not (is_published catalog.status)) problem_not_found
  raise_if (is_private catalog.visibility && not (owned_by requester catalog.owner_user_id))
      problem_not_found
  raise_if (not (is_some catalog.current_version_id)) problem_not_found
  row ← or_not_found (get_problem_with_artifact_by_slug slug)
  pure row.artifact_path

module _ (load_problem : String → Option Problem) where
  abbrev loaded : Cache → World → Option Problem × Cache → (Result Problem × World) × Cache
  loaded c w (none, c') = ((err no_problem_files, w), c')
  loaded c w (some p, c') = ((ok p, w), c')

  abbrev from_path : Cache → Result String × World → (Result Problem × World) × Cache
  from_path c (err e, w) = ((err e, w), c)
  from_path c (ok path, w) = loaded c w (get_by_path load_problem path c)

  -- `GetProblem`, on the store's cache.
  unfoldable pub get_problem : String → Uuid → Cache → World → (Result Problem × World) × Cache
  get_problem slug requester c w = from_path c (artifact_of slug requester w)
