-- ===== src/Catalog/Validation.antt =====
-- internal/problems/validator.go: the validation of an uploaded archive. The files that were
-- extracted, the parsing of a manifest and the executor are parameters.
use byte_battle.Prelude.{
  ℕ, suc, ◌+◌, ltb, if◌then◌else◌, Bool, true, false, ◌||◌, not, Option, none, some, List, [], ◌∷◌,
  String, length,
}
use byte_battle.Prelude.Int.{ℤ, pos, negsuc}
use byte_battle.Problem.{Text, TestCase, Manifest}
use byte_battle.Problem.Output.{matches}
use byte_battle.Problem.Archive.{Extraction}
use byte_battle.Problem.Validator.{
  ReferenceFile, validate_manifest, load_reference, validate_test_cases, times,
}
use byte_battle.Submission.{Executor, ExecutionRequest}
use byte_battle.Catalog.{ValidatedProblem}

-- A problem's directory: its path, and what each part holds, none if it cannot be read, and of manifest.json the
-- slug and the manifest.
pub record ProblemDir : Type 0 where
  pub path : String
  pub manifest_file : Option (String × Manifest)
  pub statement : Option String
  pub reference : Option (List ReferenceFile)
  pub tests : Option (List TestCase)

-- An entry of the archive's root: whether it is a directory, and the problem's directory if it has a
-- manifest.json.
pub record RootEntry : Type 0 where
  pub is_dir : Bool
  pub problem : Option ProblemDir

-- What ValidateArchive returns: ErrExecutorNotReady, another error, or the problems.
pub data Validation : Type 0 where
  not_ready invalid : Validation
  valid : List ValidatedProblem → Validation

abbrev pub max_archive_bytes : ℕ
max_archive_bytes = 52428800

infixl 5 ◌>>=◌ ◌>>◌
abbrev ◌>>=◌ : {A B : Type 0} → Option A → (A → Option B) → Option B
none >>= f = none
some a >>= f = f a

abbrev ◌>>◌ : {A B : Type 0} → Option A → Option B → Option B
m >> k = m >>= λ _. k

abbrev pub guarded : Bool → Option (Unit {0})
guarded true = some tt
guarded false = none

-- A limit of a manifest that has been validated, so that it is positive.
abbrev magnitude : ℤ → ℕ
magnitude (pos n) = n
magnitude (negsuc n) = 0

abbrev pub request_for : Manifest → String → String → TestCase → ExecutionRequest
request_for m code language t = record {
  code = code;
  language = language;
  stdin = t.input;
  time_limit = magnitude (times m.time_limit_ms 1000000);
  memory_limit = magnitude (times (times m.memory_limit_mb 1024) 1024);
}

module _ (trim_space : Text → Text) (run : Executor) where
  -- The i-th call of the executor, for a test of the reference solution.
  abbrev pub reference_passes : Manifest → String → String → ℕ → TestCase → Bool
  reference_passes m code language i t =
      let (result, failed) = run i (request_for m code language t) in
      if failed then false else if not (matches result.stdout t.expected) then false else true

  unfoldable pub run_reference_tests : Manifest → String → String → ℕ → List TestCase → Bool
  run_reference_tests m code language i [] = true
  run_reference_tests m code language i (t ∷ ts) =
      let rest = run_reference_tests m code language (suc i) ts in
      if reference_passes m code language i t then rest else false

  -- `validateProblemDir`, none for an error.
  unfoldable pub validate_problem_dir : ℕ → ProblemDir → Option ValidatedProblem
  validate_problem_dir i dir = dir.manifest_file >>= λ (slug, m).
      guarded (validate_manifest trim_space m)
      >> (dir.statement >>= λ statement. dir.reference >>= load_reference >>= λ (code, language).
          validate_test_cases dir.tests >>= λ cases.
          guarded (run_reference_tests m code language i cases)
          >> some (record {
            slug = slug;
            manifest = m;
            statement = statement;
            reference_code = code;
            reference_lang = language;
            test_cases = cases;
            dir = dir.path;
          }))

  -- The loop over the entries of the root.
  abbrev added_to :
      ValidatedProblem → Option (List ValidatedProblem) → Option (List ValidatedProblem)
  added_to vp rest = rest >>= λ vps. some (vp ∷ vps)

  unfoldable pub validate_entries : ℕ → List RootEntry → Option (List ValidatedProblem)
  validate_entries i [] = some []
  validate_entries i (e ∷ es) = if not e.is_dir then validate_entries i es else elim e.problem [
    | none ↦ validate_entries i es
    | some dir ↦ validate_problem_dir i dir >>= λ vp.
        added_to vp (validate_entries (i + length vp.test_cases) es)
  ]

  abbrev answer_one : Option ValidatedProblem → Validation
  answer_one none = invalid
  answer_one (some vp) = valid (vp ∷ [])

  abbrev answer_all : Option (List ValidatedProblem) → Validation
  answer_all none = invalid
  answer_all (some []) = invalid
  answer_all (some (vp ∷ vps)) = valid (vp ∷ vps)

  abbrev listed : Option (List RootEntry) → Validation
  listed none = invalid
  listed (some es) = answer_all (validate_entries 0 es)

  abbrev pub answers : Option ProblemDir → Option (List RootEntry) → Validation
  answers (some dir) entries = answer_one (validate_problem_dir 0 dir)
  answers none entries = listed entries

  -- `ValidateArchive`. `made` says whether the temporary directory could be made, `root` is the
  -- problem in it if it has a manifest.json, and `entries` what it lists.
  unfoldable pub validate_archive :
      Bool → ℕ → Bool → Extraction → Option ProblemDir → Option (List RootEntry) → Validation
  validate_archive ready size made extracted root entries =
      if not ready
      then not_ready
      else if ltb max_archive_bytes size || not made || extracted.failed
      then invalid
      else answers root entries
