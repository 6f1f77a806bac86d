-- ===== src/Catalog/Soundness.antt =====
-- What is known of a problem whose archive was validated.
use byte_battle.Prelude.{
  ℕ, zero, suc, ◌+◌, ◌≤◌, ◌≡◌, refl, sym, ap, subst, ◌∙◌, Bool, true, false, ◌||◌, not, Option,
  none, some, ltb, if◌then◌else◌, List, [], ◌∷◌, String, length, get_elem?, inl, inr, Bool-cases,
  Option-cases, arith,
}
use byte_battle.Problem.{Text, TestCase, Manifest}
use byte_battle.Problem.Archive.{Extraction}
use byte_battle.Problem.Validator.{
  ReferenceFile, validate_manifest, load_reference, validate_test_cases,
}
use byte_battle.Submission.{Executor}
use byte_battle.Catalog.{ValidatedProblem}
use byte_battle.Catalog.Validation.{
  ProblemDir, RootEntry, valid, max_archive_bytes, reference_passes, run_reference_tests,
  validate_problem_dir, validate_entries, answers, validate_archive,
}

passed_first : (a b : Bool) → (if a then b else false) ≡ true → a ≡ true
passed_first true b h = refl
passed_first false b h = h

passed_rest : (a b : Bool) → (if a then b else false) ≡ true → b ≡ true
passed_rest true b h = h
passed_rest false b h = cc

-- The problems' directories of an archive, in their order.
abbrev dirs_in : List RootEntry → List ProblemDir
dirs_in [] = []
dirs_in (e ∷ es) =
    let rest = dirs_in es in
    if e.is_dir then (elim e.problem [ none ↦ rest | some dir ↦ dir ∷ rest ]) else rest

abbrev pub problem_dirs : Option ProblemDir → Option (List RootEntry) → List ProblemDir
problem_dirs (some dir) entries = dir ∷ []
problem_dirs none none = []
problem_dirs none (some es) = dirs_in es

module _ (trim_space : Text → Text) (run : Executor) where
  -- The problem is what its directory holds: the manifest is in order, the number of cases within its
  -- limits, and the reference solution has passed each of the cases, under the limits of the
  -- manifest, in the calls of the executor from the i-th on.
  pub record IsSound (i : ℕ) (dir : ProblemDir) (vp : ValidatedProblem) : Type 0 where
    pub manifest_read : dir.manifest_file ≡ some (vp.slug, vp.manifest)
    pub in_order : validate_manifest trim_space vp.manifest ≡ true
    pub statement_read : dir.statement ≡ some vp.statement
    pub reference_files : List ReferenceFile
    pub reference_read : dir.reference ≡ some reference_files
    pub reference_loaded :
        load_reference reference_files ≡ some (vp.reference_code, vp.reference_lang)
    pub cases_read : dir.tests ≡ some vp.test_cases
    pub some_case : 1 ≤ length vp.test_cases
    pub few_cases : length vp.test_cases ≤ 100
    pub in_place : vp.dir ≡ dir.path
    pub passes :
        (n : ℕ) (t : TestCase)
        → get_elem? vp.test_cases n ≡ some t
        → reference_passes trim_space run vp.manifest vp.reference_code vp.reference_lang (i + n) t
          ≡ true

  -- The same of each problem and its directory, the executor's calls counted on.
  abbrev pub AllSound : ℕ → List ProblemDir → List ValidatedProblem → Type 0
  AllSound i [] [] = Unit
  AllSound i [] (vp ∷ vps) = ⊥
  AllSound i (dir ∷ dirs) [] = ⊥
  AllSound i (dir ∷ dirs) (vp ∷ vps) =
      IsSound i dir vp × AllSound (i + length vp.test_cases) dirs vps

  run_reference_tests-passes :
      (m : Manifest) (code language : String) (i : ℕ) (ts : List TestCase)
      → run_reference_tests trim_space run m code language i ts ≡ true
      → (n : ℕ) (t : TestCase) → get_elem? ts n ≡ some t
      → reference_passes trim_space run m code language (i + n) t ≡ true
  unfolding run_reference_tests
  run_reference_tests-passes m code language i [] h n t at = cc
  run_reference_tests-passes m code language i (x ∷ ts) h zero t at =
      let same : x ≡ t = ground arith in
      let own : reference_passes trim_space run m code language i x ≡ true =
        passed_first (reference_passes trim_space run m code language i x) _ h in
      let start : i ≡ i + 0 = omega arith in
      ap (λ y. reference_passes trim_space run m code language (i + 0) y) (sym same)
      ∙ ap (λ k. reference_passes trim_space run m code language k x) (sym start)
      ∙ own
  run_reference_tests-passes m code language i (x ∷ ts) h (suc n) t at =
      let next : suc i + n ≡ i + suc n = omega arith in
      ap (λ k. reference_passes trim_space run m code language k t) (sym next)
      ∙ run_reference_tests-passes m code language (suc i) ts
          (passed_rest (reference_passes trim_space run m code language i x) _ h) n t at

  validate_test_cases-length :
      (o : Option (List TestCase)) (cases : List TestCase)
      → validate_test_cases o ≡ some cases
      → (o ≡ some cases) × (1 ≤ length cases) × (length cases ≤ 100)
  unfolding validate_test_cases
  validate_test_cases-length none cases h = cc
  validate_test_cases-length (some cs) cases h = ground arith

  -- The directory, part by part.
  parts-IsSound :
      (i : ℕ) (path : String) (file : Option (String × Manifest)) (statement : Option String)
      (reference : Option (List ReferenceFile)) (tests : Option (List TestCase))
      (vp : ValidatedProblem)
      → let dir : ProblemDir = record {
        path = path;
        manifest_file = file;
        statement = statement;
        reference = reference;
        tests = tests;
      } in
        validate_problem_dir trim_space run i dir ≡ some vp → IsSound i dir vp
  unfolding validate_problem_dir
  parts-IsSound i path none statement reference tests vp h = absurd (cc)
  parts-IsSound i path (some (slug, m)) none reference tests vp h = absurd (ground arith)
  parts-IsSound i path (some (slug, m)) (some s) none tests vp h = absurd (ground arith)
  parts-IsSound i path (some (slug, m)) (some s) (some fs) tests vp h =
      elim (Bool-cases (validate_manifest trim_space m)) [
        | inr bad ↦ absurd (ground arith)
        | inl fine ↦ elim (Option-cases (load_reference fs)) [
          | inl missing ↦ absurd (ground arith)
          | inr ((code, language), loaded) ↦ elim (Option-cases (validate_test_cases tests)) [
            | inl missing ↦ absurd (ground arith)
            | inr (cases, counted) ↦
                elim (Bool-cases (run_reference_tests trim_space run m code language i cases)) [
                  | inr bad ↦ absurd (ground arith)
                  | inl passed ↦
                      let (read, low, high) = validate_test_cases-length tests cases counted in
                      let made : ValidatedProblem = record {
                        slug = slug;
                        manifest = m;
                        statement = s;
                        reference_code = code;
                        reference_lang = language;
                        test_cases = cases;
                        dir = path;
                      } in
                      let same : made ≡ vp = ground arith in
                      let dir : ProblemDir = record {
                        path = path;
                        manifest_file = some (slug, m);
                        statement = some s;
                        reference = some fs;
                        tests = tests;
                      } in
                      subst (IsSound i dir) same (record {
                        manifest_read = refl;
                        in_order = fine;
                        statement_read = refl;
                        reference_files = fs;
                        reference_read = refl;
                        reference_loaded = loaded;
                        cases_read = read;
                        some_case = low;
                        few_cases = high;
                        in_place = refl;
                        passes = run_reference_tests-passes m code language i cases passed;
                      })
                ]
          ]
        ]
      ]

  validate_problem_dir-IsSound :
      (i : ℕ) (dir : ProblemDir) (vp : ValidatedProblem)
      → validate_problem_dir trim_space run i dir ≡ some vp
      → IsSound i dir vp
  validate_problem_dir-IsSound i dir vp h =
      parts-IsSound i dir.path dir.manifest_file dir.statement dir.reference dir.tests vp h

  validate_entries-AllSound :
      (i : ℕ) (es : List RootEntry) (vps : List ValidatedProblem)
      → validate_entries trim_space run i es ≡ some vps
      → AllSound i (dirs_in es) vps
  unfolding validate_entries
  validate_entries-AllSound i [] vps h =
      let same : [] ≡ vps = ground arith in subst (AllSound i []) same tt
  validate_entries-AllSound i (e ∷ es) vps h = elim (Bool-cases e.is_dir) [
    | inr file ↦ rw (file) (validate_entries-AllSound i es vps (ground arith))
    | inl is_dir ↦ elim (Option-cases e.problem) [
      | inl missing ↦ rw (is_dir, missing) (validate_entries-AllSound i es vps (ground arith))
      | inr (d, found) ↦ elim (Option-cases (validate_problem_dir trim_space run i d)) [
        | inl bad ↦ absurd (ground arith)
        | inr (vp, read) ↦
            elim (Option-cases (validate_entries trim_space run (i + length vp.test_cases) es)) [
              | inl bad ↦ absurd (ground arith)
              | inr (rest, listed) ↦
                  let same : vp ∷ rest ≡ vps = ground arith in
                  let both : AllSound i (d ∷ dirs_in es) (vp ∷ rest) = (
                    validate_problem_dir-IsSound i d vp read,
                    validate_entries-AllSound (i + length vp.test_cases) es rest listed,
                  ) in
                  rw (is_dir, found) (subst (AllSound i (d ∷ dirs_in es)) same both)
            ]
      ]
    ]
  ]

  -- The problems of an archive that has been extracted.
  problems-AllSound :
      (root : Option ProblemDir) (entries : Option (List RootEntry)) (vps : List ValidatedProblem)
      → answers trim_space run root entries ≡ valid vps
      → (1 ≤ length vps) × AllSound 0 (problem_dirs root entries) vps
  problems-AllSound (some dir) entries vps h =
      elim (Option-cases (validate_problem_dir trim_space run 0 dir)) [
        | inl bad ↦ absurd (ground arith)
        | inr (vp, read) ↦
            let same : vp ∷ [] ≡ vps = ground arith in
            subst (λ x. (1 ≤ length x) × AllSound 0 (dir ∷ []) x) same
              (omega arith, (validate_problem_dir-IsSound 0 dir vp read, tt))
      ]
  problems-AllSound none none vps h = absurd (cc)
  problems-AllSound none (some es) vps h =
      elim (Option-cases (validate_entries trim_space run 0 es)) [
        | inl bad ↦ absurd (ground arith)
        | inr ([], read) ↦ absurd (ground arith)
        | inr (vp ∷ rest, read) ↦
            let same : vp ∷ rest ≡ vps = ground arith in
            subst (λ x. (1 ≤ length x) × AllSound 0 (dirs_in es) x) same
              (omega arith, validate_entries-AllSound 0 es (vp ∷ rest) read)
      ]

  -- When ValidateArchive accepts an archive, the executor was ready, the archive has at most 50 MB and
  -- was extracted without an error, there is at least one problem, and the problems are those of its
  -- directories with a manifest, in their order: each has its directory's manifest, which is in
  -- order, its statement, its 1 to 100 test cases, and the code and the language of its reference
  -- solution, and that code has passed each of the cases under the limits of the manifest.
  pub validate_archive-AllSound :
      (ready made : Bool) (size : ℕ) (extracted : Extraction) (root : Option ProblemDir)
      (entries : Option (List RootEntry)) (vps : List ValidatedProblem)
      → validate_archive trim_space run ready size made extracted root entries ≡ valid vps
      → (ready ≡ true)
        × (size ≤ max_archive_bytes)
        × (extracted.failed ≡ false)
        × (1 ≤ length vps)
        × AllSound 0 (problem_dirs root entries) vps
  unfolding validate_archive
  validate_archive-AllSound ready made size extracted root entries vps h = elim (Bool-cases ready) [
    | inr down ↦ absurd (ground arith)
    | inl up ↦ elim (Bool-cases (ltb max_archive_bytes size || not made || extracted.failed)) [
      | inl bad ↦ absurd (ground arith)
      | inr fine ↦
          let found : answers trim_space run root entries ≡ valid vps = ground arith in
          let (some_problem, sound) = problems-AllSound root entries vps found in
          (up, ground arith, ground arith, some_problem, sound)
    ]
  ]
