-- ===== src/Problem/Validator.antt =====
-- internal/problems/validator.go: the tests of a manifest, a reference solution and the test cases.
use byte_battle.Prelude.{
  ℕ, zero, suc, ◌+◌, ◌*◌, ltb, ◌==◌, if◌then◌else◌, Bool, true, false, ◌&&◌, ◌||◌, not, Option,
  some, none, List, [], ◌∷◌, String, length,
}
use byte_battle.Prelude.Int.{ℤ, pos, negsuc, is_at_most_zero, exceeds, int32_of}
use byte_battle.Problem.{Text, TestCase, Manifest}
use byte_battle.Problem.Output.{is_nil}

abbrev pub max_test_cases : ℕ
max_test_cases = 100

-- `validateManifest`: true for no error. strings.TrimSpace is a parameter.
unfoldable pub validate_manifest : (Text → Text) → Manifest → Bool
validate_manifest trim_space m =
    if is_nil (trim_space m.title)
    then false
    else if is_at_most_zero m.time_limit_ms || exceeds m.time_limit_ms 30000
    then false
    else if is_at_most_zero m.memory_limit_mb || exceeds m.memory_limit_mb 1024
    then false
    else true

-- `loadAndValidateTestCases`, given what loadTestCases returns.
unfoldable pub validate_test_cases : Option (List TestCase) → Option (List TestCase)
validate_test_cases none = none
validate_test_cases (some cases) =
    if length cases == 0
    then none
    else if ltb max_test_cases (length cases)
    then none
    else some cases

-- `extToLang`, by the extension without its dot.
pub data Extension : Type 0 where
  py go cpp java other : Extension

abbrev pub ext_to_lang : Extension → Option String
ext_to_lang py = some "python"
ext_to_lang go = some "go"
ext_to_lang cpp = some "cpp"
ext_to_lang java = some "java"
ext_to_lang other = none

-- An entry of reference/: whether it is a directory, its extension in lower case, and its content if
-- it can be read.
pub record ReferenceFile : Type 0 where
  pub is_dir : Bool
  pub ext : Extension
  pub content : Option String

abbrev pub is_some : {A : Type 0} → Option A → Bool
is_some none = false
is_some (some _) = true

abbrev pub is_solution : ReferenceFile → Bool
is_solution f = not f.is_dir && is_some (ext_to_lang f.ext)

-- The loop that collects the solutions.
unfoldable pub solutions_in : List ReferenceFile → List ReferenceFile
solutions_in [] = []
solutions_in (f ∷ fs) = let rest = solutions_in fs in if is_solution f then f ∷ rest else rest

abbrev both : {A B : Type 0} → Option A → Option B → Option (A × B)
both (some a) (some b) = some (a, b)
both none _ = none
both (some _) none = none

abbrev only : List ReferenceFile → Option (String × String)
only [] = none
only (f ∷ []) = both f.content (ext_to_lang f.ext)
only (f ∷ g ∷ fs) = none

-- `loadReference`: the code and its language.
unfoldable pub load_reference : List ReferenceFile → Option (String × String)
load_reference entries = only (solutions_in entries)

-- internal/problems/uploader.go: the limits in CreateProblemVersionParams, int32(TimeLimitMs) and
-- int32(MemoryLimitMb * 1024).
abbrev pub times : ℤ → ℕ → ℤ
times (pos n) k = pos (n * k)
times (negsuc n) zero = pos 0
times (negsuc n) (suc k) = negsuc (n * suc k + k)

unfoldable pub limits_time_ms : Manifest → ℕ
limits_time_ms m = int32_of m.time_limit_ms

unfoldable pub limits_memory_kb : Manifest → ℕ
limits_memory_kb m = int32_of (times m.memory_limit_mb 1024)
