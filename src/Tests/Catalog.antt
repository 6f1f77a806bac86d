-- ===== src/Tests/Catalog.antt =====
-- The catalogue on the data.
use byte_battle.Prelude.{ℕ, refl, true, some, [], ◌∷◌, String}
use byte_battle.Prelude.Int.{pos}
use byte_battle.Db.Exec.{World, ok}
use byte_battle.Problem.{Manifest}
use byte_battle.Catalog.{ValidatedProblem, upload_new_version}
use byte_battle.Catalog.Versions.{Published, upload_new_version-ok}
use byte_battle.Tests.Data.{fresh}

abbrev pub manifest : Manifest
manifest = record {
  title = 65 ∷ [];
  difficulty = "easy";
  time_limit_ms = pos 1000;
  memory_limit_mb = pos 64;
}

abbrev pub validated : ValidatedProblem
validated = record {
  slug = "sort";
  manifest = manifest;
  statement = "";
  reference_code = "code";
  reference_lang = "go";
  test_cases = [];
  dir = "tmp";
}

abbrev pub artifact_path : String → ℕ → String
artifact_path slug n = slug

-- User 1 uploads the second version of "sort".
upload_new_version-ok_example :
    Published artifact_path validated "sort" 1
      (some "sha")
      true
      2
      fresh
      (upload_new_version artifact_path (some "sha") true validated "sort" 1 fresh).1.db
unfolding upload_new_version byte_battle.Catalog.may_add_version
    byte_battle.Catalog.upload_version_of byte_battle.Catalog.publish_version
    byte_battle.Db.Exec.transaction byte_battle.Db.Exec.statement
    byte_battle.Queries.Problems.get_problem_catalog_by_slug
    byte_battle.Queries.Problems.lock_problem_for_update
    byte_battle.Queries.Problems.set_problem_current_version
    byte_battle.Queries.ProblemVersions.count_problem_versions
    byte_battle.Queries.ProblemVersions.get_max_problem_version
    byte_battle.Queries.ProblemVersions.create_problem_version
    byte_battle.Problem.Validator.limits_time_ms byte_battle.Problem.Validator.limits_memory_kb
upload_new_version-ok_example =
    upload_new_version-ok artifact_path validated "sort" 1 (some "sha") true fresh 2 refl
