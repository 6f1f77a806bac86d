-- ===== src/Tests/Browsing.antt =====
-- The catalogue as users see it, the upload of a new problem and the seeder, on the data.
use text.Mathlib.Text.{◌==◌ as str_eq}
use byte_battle.Prelude.{
  refl, ◌≤◌, ◌<◌, ◌≡◌, arith, if◌then◌else◌, ◌==◌, Bool, true, false, none, some, Option, List, [],
  ◌∷◌, String, find?, filter, length, map,
}
use byte_battle.Prelude.Int.{ℤ, pos}
use byte_battle.Prelude.Select.{All}
use byte_battle.ApiErr.{internal}
use byte_battle.Db.Rows.{Problem, ProblemVersion, Visibility, unlisted}
use byte_battle.Db.Exec.{World, Result, err, app}
use byte_battle.Problem as Files
use byte_battle.Problem.Validator.{ReferenceFile, py}
use byte_battle.Queries.Problems.{has_slug, owned_by}
use byte_battle.Queries.Listings.{current_version, search_row}
use byte_battle.Catalog.{ValidatedProblem}
use byte_battle.Catalog.Browse.{ProblemMeta, meta_of, list_problems, get_problem}
use byte_battle.Catalog.Visible.{MaySee, get_problem-MaySee}
use byte_battle.Catalog.Pages.{IsCurrent, is_hit, page, list_problems-shows}
use byte_battle.Submission.{Executor}
use byte_battle.Catalog.Validation.{ProblemDir, max_archive_bytes}
use byte_battle.Catalog.Soundness.{AllSound, validate_archive-AllSound}
use byte_battle.Catalog.Upload.{Calls, UploadResult, upload_problem}
use byte_battle.Catalog.Novelty.{IsNew}
use byte_battle.Server.Problems.{Form, Archive, handle_upload_problem}
use byte_battle.Server.Uploads.{handle_upload_problem-IsNew}
use byte_battle.Catalog.Seeder.{Disk, DirEntry, seed_builtins}
use byte_battle.Catalog.Seeding.{AllSeeded, seed_builtins-stable}
use byte_battle.Tests.Data.{fresh}
use byte_battle.Tests.Catalog.{manifest, artifact_path}

abbrev files : Files.Problem
files = record { slug = "sort"; statement = ""; manifest = manifest; test_cases = [] }

abbrev load : String → Option Files.Problem
load path = some files

-- The owner of "sort" gets its files.
get_problem-MaySee_example :
    (p : Problem) × (v : ProblemVersion) × (find? (has_slug "sort") fresh.db.problems ≡ some p)
    × MaySee 1 p
    × (current_version fresh.db p.current_version_id ≡ some v)
    × (load v.artifact_path ≡ some files)
unfolding byte_battle.Problem.Store.cached byte_battle.Problem.Store.get_by_path get_problem
    byte_battle.Catalog.Browse.artifact_of byte_battle.Queries.Problems.get_problem_catalog_by_slug
    byte_battle.Db.Exec.statement byte_battle.Queries.Listings.get_problem_with_artifact_by_slug
    byte_battle.Queries.Listings.join_versions
get_problem-MaySee_example =
    get_problem-MaySee load "sort" 1 [] fresh files (λ path p h. absurd (ground arith))
      (omega arith) refl

abbrev contains : String → String → Bool
contains s q = str_eq s q

abbrev metas : List ProblemMeta
metas =
    record {
      slug = "sum";
      title = "title";
      difficulty = "";
      time_limit_ms = 1000;
      memory_limit_mb = 64;
      test_case_count = 2;
    }
    ∷ []

-- A search for "title" finds the public problem alone.
list_problems-shows_example :
    (metas ≡ map meta_of (map search_row (page contains "title" (pos 10) (pos 0) fresh.db)))
    × (length (page contains "title" (pos 10) (pos 0) fresh.db) ≤ 10)
    × All
        (IsCurrent fresh.db (is_hit contains "title"))
        (page contains "title" (pos 10) (pos 0) fresh.db)
    × (1 ≡ length (filter (is_hit contains "title") fresh.db.problems))
unfolding list_problems byte_battle.Queries.Listings.count_public_problems
    byte_battle.Db.Exec.statement byte_battle.Queries.Listings.list_public_problems_search
    byte_battle.Queries.Listings.join_versions byte_battle.Prelude.order_by
list_problems-shows_example =
    list_problems-shows contains "title" (pos 10) (pos 0) fresh metas 1 refl

-- ASCII texts, and one random suffix.
abbrev calls : Calls
calls = record {
  is_letter = λ c. true;
  is_digit = λ c. false;
  to_lower = λ c. c;
  text = λ t. "a";
  random = λ i. some (i ∷ []);
  hex = λ bytes. "00";
  artifact_path = artifact_path;
}

abbrev new_one : UploadResult
new_one = record { slug = "a-00"; version = 1 }

abbrev dir : String → DirEntry
dir name = record { name = name; is_dir = true }

-- Two built-in problems, "sum" which is there, and "max" with two versions.
abbrev builtins : List DirEntry
builtins = dir "sum" ∷ dir "max" ∷ []

abbrev atoi : String → Option ℤ
atoi v = if str_eq v "v2" then some (pos 2) else some (pos 1)

abbrev disk : Disk
disk = record {
  read_dir = λ path. if str_eq path "" then some builtins else some (dir "v2" ∷ dir "v1" ∷ []);
  problem_at = λ path. some files;
  sha_of = λ path. some "sha";
  reference_at = λ path. some (record { is_dir = false; ext = py; content = none } ∷ []);
  atoi = atoi;
  has_prefix_v = λ name. true;
  text = λ t. "A";
}

abbrev seeded : World
seeded = (seed_builtins disk fresh).1

seed_builtins-stable_example :
    AllSeeded disk builtins seeded × ((seed_builtins disk seeded).1.db ≡ seeded.db)
unfolding seed_builtins byte_battle.Catalog.Seeder.seed_all byte_battle.Catalog.Seeder.seed_slug
    byte_battle.Queries.Problems.get_problem_catalog_by_slug byte_battle.Db.Exec.statement
    byte_battle.Catalog.Seeder.seed_files byte_battle.Catalog.Seeder.latest_version_dir
    byte_battle.Prelude.order_by byte_battle.Catalog.Seeder.version_str_to_int
    byte_battle.Catalog.Seeder.detect_reference_language byte_battle.Db.Exec.transaction
    byte_battle.Catalog.Seeder.insert_problem_rows
    byte_battle.Queries.Problems.create_problem_catalog
    byte_battle.Queries.ProblemVersions.create_problem_version
    byte_battle.Problem.Validator.limits_time_ms byte_battle.Problem.Validator.limits_memory_kb
    byte_battle.Queries.Problems.set_problem_current_version byte_battle.Prelude.insert_by
seed_builtins-stable_example = seed_builtins-stable disk builtins fresh seeded refl refl refl

-- An archive with one problem, whose reference solution is in Python and prints nothing.
abbrev problem_dir : ProblemDir
problem_dir = record {
  path = "tmp";
  manifest_file = some ("", manifest);
  statement = some "";
  reference = some (record { is_dir = false; ext = py; content = some "pass" } ∷ []);
  tests = some (record { name = "1"; input = []; expected = 10 ∷ [] } ∷ []);
}

abbrev accepted : ValidatedProblem
accepted = record {
  slug = "";
  statement = "";
  reference_code = "pass";
  dir = "tmp";
  manifest = manifest;
  reference_lang = "python";
  test_cases = record { name = "1"; input = []; expected = 10 ∷ [] } ∷ [];
}

abbrev quiet : Executor
quiet i r = (record { stdout = []; stderr = []; exit_code = 0 }, false)

validate_archive-AllSound_example :
    (true ≡ true)
    × (5000 ≤ max_archive_bytes)
    × (false ≡ false)
    × (1 ≤ 1)
    × AllSound (λ t. t) quiet 0 (problem_dir ∷ []) (accepted ∷ [])
unfolding byte_battle.Catalog.Validation.validate_archive
    byte_battle.Catalog.Validation.validate_entries
    byte_battle.Catalog.Validation.validate_problem_dir
    byte_battle.Problem.Validator.validate_manifest byte_battle.Problem.Validator.load_reference
    byte_battle.Problem.Validator.solutions_in byte_battle.Problem.Validator.validate_test_cases
    byte_battle.Catalog.Validation.run_reference_tests byte_battle.Problem.Output.matches
    byte_battle.Problem.Output.normalize_output byte_battle.Problem.Output.trim_right
    byte_battle.Problem.Output.join byte_battle.Problem.Output.split
validate_archive-AllSound_example =
    validate_archive-AllSound (λ t. t) quiet true true 5000 (record { files = []; failed = false })
      none (some (record { is_dir = true; problem = some problem_dir } ∷ [])) (accepted ∷ []) refl

abbrev form : Form
form = record { parsed = true; visibility = some unlisted; has_file = true }

abbrev archive : Archive
archive = record {
  size = 5000;
  made = true;
  extracted = record { files = []; failed = false };
  root = some problem_dir;
  entries = none;
}

-- User 2 uploads the problem.
handle_upload_problem-IsNew_example :
    (v : Visibility) × (r : UploadResult) × (some unlisted ≡ some v)
    × (new_one ∷ [] ≡ r ∷ [])
    × AllSound (λ t. t) quiet 0 (problem_dir ∷ []) (accepted ∷ [])
    × (length (filter (λ p. owned_by 2 p.owner_user_id) fresh.db.problems) < 20)
    × IsNew calls accepted 2 v
        (some "sha")
        true
        r
        fresh
        (handle_upload_problem
          (λ t. t)
          quiet
          true
          (λ k. calls)
          (λ k. some "sha")
          (λ k. true)
          form
          archive
          2
          fresh).1.db
unfolding byte_battle.Catalog.Validation.validate_archive
    byte_battle.Catalog.Validation.validate_problem_dir
    byte_battle.Problem.Validator.validate_manifest byte_battle.Problem.Validator.load_reference
    byte_battle.Problem.Validator.solutions_in byte_battle.Problem.Validator.validate_test_cases
    byte_battle.Catalog.Validation.run_reference_tests byte_battle.Problem.Output.matches
    byte_battle.Problem.Output.normalize_output byte_battle.Problem.Output.trim_right
    byte_battle.Problem.Output.join byte_battle.Problem.Output.split
    byte_battle.Server.Problems.handle_upload_problem byte_battle.Server.Problems.upload_each
    byte_battle.Catalog.validate_upload_batch byte_battle.Catalog.check_batch
    byte_battle.Queries.Problems.count_user_problems byte_battle.Catalog.Upload.upload_problem
    byte_battle.Catalog.Upload.upload_new_problem byte_battle.Catalog.Upload.generate_slug
    byte_battle.Queries.Problems.get_problem_catalog_by_slug byte_battle.Db.Exec.statement
    byte_battle.Db.Exec.transaction byte_battle.Catalog.Upload.publish_problem
    byte_battle.Queries.Problems.create_problem_catalog
    byte_battle.Queries.ProblemVersions.create_problem_version
    byte_battle.Problem.Validator.limits_time_ms byte_battle.Problem.Validator.limits_memory_kb
    byte_battle.Queries.Problems.set_problem_current_version
    byte_battle.Problem.Kebab.title_to_kebab
handle_upload_problem-IsNew_example =
    handle_upload_problem-IsNew (λ t. t) quiet true (λ k. calls) (λ k. some "sha") (λ k. true) form
      archive 2 fresh accepted (new_one ∷ []) refl refl refl

-- Of two problems, the second one's directory has no hash: the answer is an error, and the first one
-- is published.
abbrev two_problems : Archive
two_problems = record archive {
  root = none;
  entries = some (
      record { is_dir = true; problem = some problem_dir }
      ∷ record { is_dir = true; problem = some problem_dir }
      ∷ []);
}

abbrev half_done : Result (List UploadResult) × World
half_done =
    handle_upload_problem (λ t. t) quiet true (λ k. calls)
      (λ k. if k == 0 then some "sha" else none) (λ k. true) form two_problems 2 fresh

test-half_done : (half_done.0 ≡ err (app internal)) × (length half_done.1.db.problems ≡ 3)
unfolding byte_battle.Catalog.Validation.validate_archive
    byte_battle.Catalog.Validation.validate_problem_dir
    byte_battle.Problem.Validator.validate_manifest byte_battle.Problem.Validator.load_reference
    byte_battle.Problem.Validator.solutions_in byte_battle.Problem.Validator.validate_test_cases
    byte_battle.Catalog.Validation.run_reference_tests byte_battle.Problem.Output.matches
    byte_battle.Problem.Output.normalize_output byte_battle.Problem.Output.trim_right
    byte_battle.Problem.Output.join byte_battle.Problem.Output.split
    byte_battle.Server.Problems.handle_upload_problem byte_battle.Server.Problems.upload_each
    byte_battle.Catalog.validate_upload_batch byte_battle.Catalog.check_batch
    byte_battle.Queries.Problems.count_user_problems byte_battle.Catalog.Upload.upload_problem
    byte_battle.Catalog.Upload.upload_new_problem byte_battle.Catalog.Upload.generate_slug
    byte_battle.Queries.Problems.get_problem_catalog_by_slug byte_battle.Db.Exec.statement
    byte_battle.Db.Exec.transaction byte_battle.Catalog.Upload.publish_problem
    byte_battle.Queries.Problems.create_problem_catalog
    byte_battle.Queries.ProblemVersions.create_problem_version
    byte_battle.Problem.Validator.limits_time_ms byte_battle.Problem.Validator.limits_memory_kb
    byte_battle.Queries.Problems.set_problem_current_version
    byte_battle.Problem.Kebab.title_to_kebab byte_battle.Catalog.Validation.validate_entries
    byte_battle.Server.Problems.map_upload_error
test-half_done = (refl, refl)
