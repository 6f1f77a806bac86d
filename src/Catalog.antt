-- ===== src/Catalog.antt =====
-- internal/service/problem_service.go and uploader.go of internal/problems: the catalogue of
-- problems. dirSHA256, fmt.Sprintf("%s/v%d") and the renaming of a directory are parameters.
use text.Mathlib.Text.{◌==◌ as str_eq}
use byte_battle.Prelude.{
  ℕ, suc, ◌+◌, ◌%◌, ◌==◌, ltb, leb, if◌then◌else◌, Bool, true, false, not, Option, none, some, List,
  [], ◌∷◌, String, length,
}
use byte_battle.ApiErr.{
  problem_not_found, not_problem_owner, version_limit_reached, problem_limit_reached,
}
use byte_battle.Db.Rows.{Uuid, Visibility, Problem, ProblemVersion}
use byte_battle.Db.Exec.{
  World, Action, ok, err, app, pure, raise, raise_if, ◌>>=◌, ◌>>◌, or_missing, transaction,
  no_problem_files,
}
use byte_battle.Queries.Problems.{
  get_problem_catalog_by_slug, count_user_problems, lock_problem_for_update,
  set_problem_current_version, update_problem_visibility,
}
use byte_battle.Queries.ProblemVersions.{
  count_problem_versions, create_problem_version, get_max_problem_version,
}
use byte_battle.Problem.{TestCase, Manifest}
use byte_battle.Problem.Validator.{limits_time_ms, limits_memory_kb}
pub mod Versions
pub mod Validation
pub mod Browse
pub mod Upload
pub mod Seeder
pub mod Soundness
pub mod Novelty
pub mod Visible
pub mod Pages
pub mod Seeded
pub mod Planting
pub mod Seeding

-- MaxProblemsPerUser and MaxVersionsPerProblem
abbrev pub max_problems_per_user : ℕ
max_problems_per_user = 20

abbrev pub max_versions_per_problem : ℕ
max_versions_per_problem = 10

-- `problems.ValidatedProblem`; `slug` is the manifest's.
pub record ValidatedProblem : Type 0 where
  pub slug : String
  pub manifest : Manifest
  pub statement : String
  pub reference_code : String
  pub reference_lang : String
  pub test_cases : List TestCase
  pub dir : String

abbrev is_owner : Uuid → Option Uuid → Bool
is_owner u none = false
is_owner u (some v) = v == u

unfoldable pub update_visibility : String → Uuid → Visibility → Action (Unit {0})
update_visibility slug requester visibility = do
  catalog ← or_missing (get_problem_catalog_by_slug slug) problem_not_found
  raise_if (not (is_owner requester catalog.owner_user_id)) not_problem_owner
  update_problem_visibility catalog.id visibility

-- The tests that ValidateUploadBatch and UploadNewVersion have in common.
unfoldable pub may_add_version : String → Uuid → Action Problem
may_add_version slug owner = do
  catalog ← or_missing (get_problem_catalog_by_slug slug) problem_not_found
  raise_if (not (is_owner owner catalog.owner_user_id)) not_problem_owner
  cnt ← count_problem_versions catalog.id
  raise_if (leb max_versions_per_problem cnt) version_limit_reached
  pure catalog

-- The loop of ValidateUploadBatch: the number of new problems.
unfoldable pub check_batch : Uuid → ℕ → List ValidatedProblem → Action ℕ
check_batch owner count [] = pure count
check_batch owner count (vp ∷ vps) =
    let fresh = check_batch owner (suc count) vps in
    let known = check_batch owner count vps in
    if str_eq vp.slug "" then fresh else (may_add_version vp.slug owner >> known)

unfoldable pub validate_upload_batch : List ValidatedProblem → Uuid → Action (Unit {0})
validate_upload_batch validated owner = do
  count ← check_batch owner 0 validated
  (if ltb 0 count
      then (do
        existing ← count_user_problems owner
        raise_if (ltb max_problems_per_user (existing + count)) problem_limit_reached)
      else pure tt)

abbrev pub hashed : Option String → Action String
hashed none = raise no_problem_files
hashed (some sha) = pure sha

module _ (artifact_path : String → ℕ → String) where
  -- The transaction of uploadNewVersion.
  unfoldable pub publish_version :
      ValidatedProblem → String → ℕ → String → Uuid → Action ProblemVersion
  publish_version vp slug catalog_id sha owner = do
    locked ← lock_problem_for_update catalog_id
    max_ver ← get_max_problem_version catalog_id
    pv ← create_problem_version (record {
      problem_id = catalog_id;
      version = suc max_ver % 4294967296;
      artifact_path = artifact_path slug (suc max_ver);
      artifact_sha256 = sha;
      limits_time_ms = limits_time_ms vp.manifest;
      limits_memory_kb = limits_memory_kb vp.manifest;
      checker_type = "diff";
      reference_language = vp.reference_lang;
      created_by_user_id = some owner;
      test_case_count = length vp.test_cases % 4294967296;
      difficulty = vp.manifest.difficulty;
    })
    set_problem_current_version catalog_id pv.id
    pure pv

  -- `uploadNewVersion`: the new version's number. `moved` says whether the directory could be renamed.
  unfoldable pub upload_version_of :
      Option String → Bool → ValidatedProblem → String → Uuid → Action ℕ
  upload_version_of sha moved vp slug owner = do
    catalog ← or_missing (get_problem_catalog_by_slug slug) problem_not_found
    hash ← hashed sha
    pv ← transaction (publish_version vp slug catalog.id hash owner)
    (if moved then pure pv.version else raise no_problem_files)

  unfoldable pub upload_new_version :
      Option String → Bool → ValidatedProblem → String → Uuid → Action ℕ
  upload_new_version sha moved vp slug owner = do
    catalog ← may_add_version slug owner
    upload_version_of sha moved vp slug owner
