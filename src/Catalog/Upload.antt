-- ===== src/Catalog/Upload.antt =====
-- internal/problems/uploader.go: the upload of a new problem. rand.Read, hex.EncodeToString, the
-- package unicode, dirSHA256 and the renaming of a directory are parameters.
use Prim.Native.String.{◌++◌ as concat}
use text.Mathlib.Text.{◌==◌ as str_eq}
use byte_battle.Prelude.{
  ℕ, zero, suc, ◌%◌, if◌then◌else◌, Bool, true, false, Option, none, some, List, String, length,
}
use byte_battle.Db.Rows.{Problem, ProblemVersion, Uuid, Visibility, published}
use byte_battle.Db.Exec.{
  Action, Result, ok, err, no_rows, no_randomness, no_problem_files, no_slug, pure, raise, ◌>>=◌,
  ◌>>◌, transaction,
}
use byte_battle.Problem.{Text}
use byte_battle.Problem.Kebab.{title_to_kebab}
use byte_battle.Problem.Validator.{limits_time_ms, limits_memory_kb}
use byte_battle.Queries.Problems.{
  get_problem_catalog_by_slug, create_problem_catalog, set_problem_current_version,
}
use byte_battle.Queries.ProblemVersions.{create_problem_version}
use byte_battle.Catalog.{ValidatedProblem, hashed, upload_version_of}

pub record UploadResult : Type 0 where
  pub slug : String
  pub version : ℕ

-- `is_letter`, `is_digit` and `to_lower` are the package unicode's, `text` a Go string of its bytes,
-- `random i` the i-th call of rand.Read, none for an error, and `hex` its encoding.
pub record Calls : Type 0 where
  pub is_letter : ℕ → Bool
  pub is_digit : ℕ → Bool
  pub to_lower : ℕ → ℕ
  pub text : Text → String
  pub random : ℕ → Option (List ℕ)
  pub hex : List ℕ → String
  pub artifact_path : String → ℕ → String

module _ (ext : Calls) where
  abbrev pub slug_base : Text → String
  slug_base title =
      let base = ext.text (title_to_kebab ext.is_letter ext.is_digit ext.to_lower title) in
      if str_eq base "" then "problem" else base

  abbrev random_hex : Option (List ℕ) → Action String
  random_hex none = raise no_randomness
  random_hex (some bytes) = pure (ext.hex bytes)

  -- What a turn of the loop makes of the lookup, with the next turn.
  abbrev pub slug_or : String → Action String → Result Problem → Action String
  slug_or slug retry (ok p) = retry
  slug_or slug retry (err no_rows) = pure slug
  slug_or slug retry (err e) = raise e

  abbrev pub attempt : Action Problem → Action (Result Problem)
  attempt m w = let (r, w') = m w in (ok r, w')

  -- The loop of generateSlug, from the i-th call of rand.Read on; ten turns.
  unfoldable pub generate_slug : ℕ → ℕ → String → Action String
  generate_slug zero i base = raise no_slug
  generate_slug (suc fuel) i base = do
    suffix ← random_hex (ext.random i)
    found ← attempt (get_problem_catalog_by_slug (concat base (concat "-" suffix)))
    slug_or (concat base (concat "-" suffix)) (generate_slug fuel (suc i) base) found

  -- The transaction of UploadProblem.
  unfoldable pub publish_problem :
      ValidatedProblem → String → String → Uuid → Visibility → Action (Problem × ProblemVersion)
  publish_problem vp slug sha owner visibility = do
    catalog ← create_problem_catalog (record {
      slug = slug;
      owner_user_id = some owner;
      visibility = visibility;
      status = published;
      title = ext.text vp.manifest.title;
    })
    pv ← create_problem_version (record {
      problem_id = catalog.id;
      version = 1;
      artifact_path = concat slug "/v1";
      artifact_sha256 = sha;
      limits_time_ms = limits_time_ms vp.manifest;
      limits_memory_kb = limits_memory_kb vp.manifest;
      checker_type = "diff";
      reference_language = vp.reference_lang;
      created_by_user_id = some owner;
      test_case_count = length vp.test_cases % 4294967296;
      difficulty = vp.manifest.difficulty;
    })
    set_problem_current_version catalog.id pv.id
    pure (catalog, pv)

  abbrev renamed : Bool → UploadResult → Action UploadResult
  renamed true r = pure r
  renamed false r = raise no_problem_files

  -- UploadProblem of an archive without a slug.
  unfoldable pub upload_new_problem :
      Option String → Bool → ValidatedProblem → Uuid → Visibility → Action UploadResult
  upload_new_problem sha moved vp owner visibility = do
    slug ← generate_slug 10 0 (slug_base vp.manifest.title)
    hash ← hashed sha
    transaction (publish_problem vp slug hash owner visibility)
    renamed moved (record { slug = slug; version = 1 })

  -- `UploadProblem`. `sha` is what dirSHA256 gives, and `moved` says whether the directory could be
  -- renamed. The title of the result is the manifest's.
  unfoldable pub upload_problem :
      Option String → Bool → ValidatedProblem → Uuid → Visibility → Action UploadResult
  upload_problem sha moved vp owner visibility =
      if str_eq vp.slug "" then upload_new_problem sha moved vp owner visibility else (do
        n ← upload_version_of ext.artifact_path sha moved vp vp.slug owner
        pure (record { slug = vp.slug; version = n }))
