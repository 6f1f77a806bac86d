-- ===== src/Queries/ProblemVersions.antt =====
-- internal/db/sqlc/problem_versions.sql.go, with the CHECKs of internal/migrations 000016 and 000017.
use text.Mathlib.Text.{◌==◌ as str_eq}
use byte_battle.Prelude.{
  ℕ, suc, ◌==◌, ltb, if◌then◌else◌, Bool, ◌&&◌, not, List, [], ◌∷◌, ◌++◌, Option, any, filter,
  length, String,
}
use byte_battle.Db.Rows.{Db, ProblemVersion, Uuid}
use byte_battle.Db.Exec.{World, Action, ok, err, constraint, statement, query}
use byte_battle.Queries.Problems.{problem_is, owner_exists}

abbrev pub version_of : ℕ → ProblemVersion → Bool
version_of problem v = v.problem_id == problem

unfoldable pub count_problem_versions : ℕ → Action ℕ
count_problem_versions problem =
    query λ d. ok (length (filter (version_of problem) d.problem_versions))

pub record CreateProblemVersionParams : Type 0 where
  pub problem_id : ℕ
  pub version : ℕ
  pub artifact_path : String
  pub artifact_sha256 : String
  pub limits_time_ms : ℕ
  pub limits_memory_kb : ℕ
  pub checker_type : String
  pub reference_language : String
  pub created_by_user_id : Option Uuid
  pub test_case_count : ℕ
  pub difficulty : String

abbrev pub new_version : CreateProblemVersionParams → World → ProblemVersion
new_version arg w = record {
  id = w.db.next_version_id;
  problem_id = arg.problem_id;
  version = arg.version;
  artifact_path = arg.artifact_path;
  artifact_sha256 = arg.artifact_sha256;
  limits_time_ms = arg.limits_time_ms;
  limits_memory_kb = arg.limits_memory_kb;
  checker_type = arg.checker_type;
  reference_language = arg.reference_language;
  created_by_user_id = arg.created_by_user_id;
  created_at = w.now;
  test_case_count = arg.test_case_count;
  difficulty = arg.difficulty;
}

-- Greater than 0 as an int32.
abbrev is_positive : ℕ → Bool
is_positive n = ltb 0 n && ltb n 2147483648

abbrev same_version : CreateProblemVersionParams → ProblemVersion → Bool
same_version arg v = v.problem_id == arg.problem_id && v.version == arg.version

abbrev is_one_of : List String → String → Bool
is_one_of ss s = any (str_eq s) ss

-- The CHECKs on the texts, and on the number of test cases as an int32.
abbrev is_checked : CreateProblemVersionParams → Bool
is_checked arg =
    is_one_of ("diff" ∷ "custom" ∷ []) arg.checker_type
    && is_one_of ("python" ∷ "go" ∷ "cpp" ∷ "java" ∷ []) arg.reference_language
    && is_one_of ("" ∷ "easy" ∷ "medium" ∷ "hard" ∷ []) arg.difficulty
    && ltb arg.test_case_count 2147483648

-- The numbers are positive, the texts are checked, the pair of problem and version is unique, and the problem and the user, if
-- there is one, exist.
abbrev is_insertable : CreateProblemVersionParams → Db → Bool
is_insertable arg d =
    is_positive arg.version
    && is_positive arg.limits_time_ms
    && is_positive arg.limits_memory_kb
    && is_checked arg
    && not (any (same_version arg) d.problem_versions)
    && any (problem_is arg.problem_id) d.problems
    && owner_exists arg.created_by_user_id d

unfoldable pub create_problem_version : CreateProblemVersionParams → Action ProblemVersion
create_problem_version arg = statement λ w.
    if is_insertable arg w.db
    then ok (
      new_version arg w,
      record w.db {
        problem_versions = w.db.problem_versions ++ (new_version arg w ∷ []);
        next_version_id = suc w.db.next_version_id;
      },
    )
    else err constraint

abbrev larger : ℕ → ℕ → ℕ
larger a b = if ltb a b then b else a

-- COALESCE(MAX(version), 0)
abbrev pub max_version : ℕ → List ProblemVersion → ℕ
max_version problem [] = 0
max_version problem (v ∷ vs) =
    let rest = max_version problem vs in
    if version_of problem v then larger v.version rest else rest

unfoldable pub get_max_problem_version : ℕ → Action ℕ
get_max_problem_version problem = query λ d. ok (max_version problem d.problem_versions)
