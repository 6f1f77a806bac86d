-- ===== src/Catalog/Seeder.antt =====
-- internal/problems/seeder.go: the built-in problems. strconv.Atoi, the directories and what they hold
-- are parameters.
use Prim.Native.String.{◌++◌ as concat}
use byte_battle.Prelude.{
  ℕ, ◌%◌, if◌then◌else◌, Bool, ◌&&◌, Option, none, some, List, [], ◌∷◌, String, length, filter, map,
  order_by,
}
use byte_battle.Prelude.Int.{ℤ, pos, negsuc, is_at_most_zero, int32_of}
use byte_battle.Db.Rows.{Uuid, public, published}
use byte_battle.Db.Rows as Rows
use byte_battle.Db.Exec.{
  Action, Result, ok, err, no_rows, no_problem_files, pure, raise, ◌>>=◌, ◌>>◌, transaction,
}
use byte_battle.Problem.{Text, Problem}
use byte_battle.Problem.Validator.{ReferenceFile, ext_to_lang, limits_time_ms, limits_memory_kb}
use byte_battle.Queries.Problems.{
  get_problem_catalog_by_slug, create_problem_catalog, set_problem_current_version,
}
use byte_battle.Queries.ProblemVersions.{create_problem_version}

-- An entry of a directory.
pub record DirEntry : Type 0 where
  pub name : String
  pub is_dir : Bool

-- What the disk holds and the library functions: a directory's entries in the order of os.ReadDir,
-- the problem that the store reads at a path, dirSHA256, the reference directory, Atoi of a name
-- without its "v" (none for an error), HasPrefix "v", and the text of a title.
pub record Disk : Type 0 where
  pub read_dir : String → Option (List DirEntry)
  pub problem_at : String → Option Problem
  pub sha_of : String → Option String
  pub reference_at : String → Option (List ReferenceFile)
  pub atoi : String → Option ℤ
  pub has_prefix_v : String → Bool
  pub text : Text → String

-- `insertProblemArgs`; `catalog_id` is none if the catalogue does not have the slug.
pub record InsertProblemArgs : Type 0 where
  pub slug : String
  pub catalog_id : Option ℕ
  pub problem : Problem
  pub artifact_path : String
  pub sha : String
  pub ref_lang : String
  pub version : ℤ

abbrev positive_or_one : ℤ → ℤ
positive_or_one n = if is_at_most_zero n then pos 1 else n

module _ (disk : Disk) where
  abbrev version_number : Option ℤ → ℤ
  version_number none = pos 1
  version_number (some n) = positive_or_one n

  unfoldable pub version_str_to_int : String → ℤ
  version_str_to_int v = version_number (disk.atoi v)

  abbrev sort_key : ℤ → ℕ
  sort_key (pos n) = n
  sort_key (negsuc n) = 0

  abbrev last_of : List String → Option String
  last_of [] = none
  last_of (v ∷ []) = some v
  last_of (v ∷ w ∷ vs) = last_of (w ∷ vs)

  abbrev versions_in : Option (List DirEntry) → Option String
  versions_in none = none
  versions_in (some es) = last_of (
      order_by (λ v. sort_key (version_str_to_int v))
        (map (λ e. e.name) (filter (λ e. e.is_dir && disk.has_prefix_v e.name) es)))

  -- The last version of a problem's directory; none for an error. Of two names with one number,
  -- which sort.Slice may order either way, it is the later one here.
  unfoldable pub latest_version_dir : String → Option String
  latest_version_dir slug = versions_in (disk.read_dir slug)

  -- The first entry with the extension of a language.
  unfoldable pub detect_reference_language : List ReferenceFile → Option String
  detect_reference_language [] = none
  detect_reference_language (e ∷ es) =
      let rest = detect_reference_language es in
      if e.is_dir then rest else (elim (ext_to_lang e.ext) [ some lang ↦ some lang | none ↦ rest ])

  abbrev or_fail : {A : Type 0} → Option A → Action A
  or_fail none = raise no_problem_files
  or_fail (some a) = pure a

  abbrev catalog_for : InsertProblemArgs → Option ℕ → Action ℕ
  catalog_for args (some id) = pure id
  catalog_for args none = do
    catalog ← create_problem_catalog (record {
      slug = args.slug;
      owner_user_id = none;
      visibility = public;
      status = published;
      title = disk.text args.problem.manifest.title;
    })
    pure catalog.id

  unfoldable pub insert_problem_rows : InsertProblemArgs → Action (Unit {0})
  insert_problem_rows args = do
    catalog_id ← catalog_for args args.catalog_id
    pv ← create_problem_version (record {
      problem_id = catalog_id;
      version = int32_of args.version;
      artifact_path = args.artifact_path;
      artifact_sha256 = args.sha;
      limits_time_ms = limits_time_ms args.problem.manifest;
      limits_memory_kb = limits_memory_kb args.problem.manifest;
      checker_type = "diff";
      reference_language = args.ref_lang;
      created_by_user_id = none;
      test_case_count = length args.problem.test_cases % 4294967296;
      difficulty = args.problem.manifest.difficulty;
    })
    set_problem_current_version catalog_id pv.id

  -- What seedSlug does with a slug that has no current version.
  unfoldable pub seed_files : String → Option ℕ → Action (Unit {0})
  seed_files slug catalog_id = do
    latest ← or_fail (latest_version_dir slug)
    (let path = concat slug (concat "/" latest) in
        do
          problem ← or_fail (disk.problem_at path)
          sha ← or_fail (disk.sha_of path)
          entries ← or_fail (disk.reference_at path)
          lang ← or_fail (detect_reference_language entries)
          transaction (
              insert_problem_rows (record {
                slug = slug;
                catalog_id = catalog_id;
                problem = problem;
                artifact_path = path;
                sha = sha;
                ref_lang = lang;
                version = version_str_to_int latest;
              })))

  abbrev unless_current : String → Rows.Problem → Option ℕ → Action (Unit {0})
  unless_current slug catalog (some v) = pure tt
  unless_current slug catalog none = seed_files slug (some catalog.id)

  abbrev looked_up : String → Result Rows.Problem → Action (Unit {0})
  looked_up slug (ok catalog) = unless_current slug catalog catalog.current_version_id
  looked_up slug (err no_rows) = seed_files slug none
  looked_up slug (err e) = raise e

  unfoldable pub seed_slug : String → Action (Unit {0})
  seed_slug slug w = let (r, w') = get_problem_catalog_by_slug slug w in looked_up slug r w'

  -- The loop of SeedBuiltins.
  unfoldable pub seed_all : List DirEntry → Action (Unit {0})
  seed_all [] = pure tt
  seed_all (e ∷ es) =
      let rest = seed_all es in if e.is_dir then (seed_slug e.name >> rest) else rest

  unfoldable pub seed_builtins : Action (Unit {0})
  seed_builtins = do entries ← or_fail (disk.read_dir ""); seed_all entries
