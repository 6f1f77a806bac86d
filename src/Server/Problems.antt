-- ===== src/Server/Problems.antt =====
-- internal/server/handler.go: the handlers on problems and uploads. A form is what
-- ParseMultipartForm, FormValue and FormFile give; the answers keep the services' types.
use byte_battle.Prelude.{
  ℕ, suc, if◌then◌else◌, Bool, not, Option, none, some, List, [], ◌∷◌, String,
}
use byte_battle.Prelude.Int.{ℤ, pos, negsuc, is_at_most_zero}
use byte_battle.ApiErr.{Code, internal, validation, archive_invalid, executor_not_ready}
use byte_battle.Db.Rows.{Uuid, Visibility}
use byte_battle.Db.Exec.{Action, Error, app, pure, raise, raise_if, ◌>>=◌, ◌>>◌}
use byte_battle.Problem.{Text}
use byte_battle.Problem.Archive.{Extraction}
use byte_battle.Submission.{Executor}
use byte_battle.Catalog.{
  ValidatedProblem, update_visibility, validate_upload_batch, upload_new_version,
}
use byte_battle.Catalog.Browse.{ProblemMeta, MyProblemRow}
use byte_battle.Catalog.Browse as Browse
use byte_battle.Catalog.Upload.{UploadResult, Calls, upload_problem}
use byte_battle.Catalog.Validation.{
  ProblemDir, RootEntry, Validation, not_ready, invalid, valid, validate_archive,
}
use byte_battle.Server.Auth.{or_code}

abbrev text_or_empty : Option String → String
text_or_empty none = ""
text_or_empty (some q) = q

abbrev limit_or_default : Option ℤ → ℤ
limit_or_default none = pos 50
limit_or_default (some l) = if is_at_most_zero l then pos 50 else l

abbrev offset_or_zero : Option ℤ → ℤ
offset_or_zero none = pos 0
offset_or_zero (some (pos n)) = pos n
offset_or_zero (some (negsuc n)) = pos 0

module _ (contains : String → String → Bool) where
  unfoldable pub list_problems : Option String → Option ℤ → Option ℤ → Action (List ProblemMeta × ℕ)
  list_problems q limit offset =
      Browse.list_problems contains (text_or_empty q) (limit_or_default limit)
        (offset_or_zero offset)

  unfoldable pub list_my_problems : Uuid → Option String → Action (List MyProblemRow)
  list_my_problems user q = Browse.list_my_problems contains user (text_or_empty q)

unfoldable pub patch_problem : String → Uuid → Visibility → Action (String × Visibility)
patch_problem slug user visibility = do
  update_visibility slug user visibility
  pure (slug, visibility)

unfoldable pub map_upload_error : Error → Code
map_upload_error (app c) = c
map_upload_error _ = internal

-- Whether the form is parsed, its visibility (none for another word), and whether it has a file.
pub record Form : Type 0 where
  pub parsed : Bool
  pub visibility : Option Visibility
  pub has_file : Bool

-- The file of the form, by its size and what its extraction gives.
pub record Archive : Type 0 where
  pub size : ℕ
  pub made : Bool
  pub extracted : Extraction
  pub root : Option ProblemDir
  pub entries : Option (List RootEntry)

abbrev or_validation : Option Visibility → Action Visibility
or_validation none = raise (app validation)
or_validation (some v) = pure v

abbrev problems_of : Validation → Action (List ValidatedProblem)
problems_of not_ready = raise (app executor_not_ready)
problems_of invalid = raise (app archive_invalid)
problems_of (valid vps) = pure vps

abbrev only_one : List ValidatedProblem → Action ValidatedProblem
only_one [] = raise (app archive_invalid)
only_one (vp ∷ []) = pure vp
only_one (vp ∷ wp ∷ vps) = raise (app archive_invalid)

module _ (trim_space : Text → Text) (run : Executor) (ready : Bool) where
  abbrev pub validated_archive : Archive → Validation
  validated_archive a =
      validate_archive trim_space run ready a.size a.made a.extracted a.root a.entries

  -- The calls of the k-th upload: its randomness, the hash of its directory, and its renaming.
  module _ (ext : ℕ → Calls) (sha : ℕ → Option String) (moved : ℕ → Bool) where
    unfoldable pub upload_each :
        ℕ → List ValidatedProblem → Uuid → Visibility → Action (List UploadResult)
    upload_each k [] user visibility = pure []
    upload_each k (vp ∷ vps) user visibility =
        let rest = upload_each (suc k) vps user visibility in
        do
          r ← or_code (upload_problem (ext k) (sha k) (moved k) vp user visibility) map_upload_error
          rs ← rest
          pure (r ∷ rs)

    unfoldable pub handle_upload_problem : Form → Archive → Uuid → Action (List UploadResult)
    handle_upload_problem form archive user = do
      raise_if (not form.parsed) archive_invalid
      visibility ← or_validation form.visibility
      raise_if (not form.has_file) archive_invalid
      validated ← problems_of (validated_archive archive)
      validate_upload_batch validated user
      upload_each 0 validated user visibility

  unfoldable pub handle_upload_problem_version :
      (String → ℕ → String)
      → Option String
      → Bool
      → Form
      → Archive
      → String
      → Uuid
      → Action (String × ℕ)
  handle_upload_problem_version artifact_path sha moved form archive slug user = do
    raise_if (not form.parsed) archive_invalid
    raise_if (not form.has_file) archive_invalid
    validated ← problems_of (validated_archive archive)
    vp ← only_one validated
    n ← or_code (upload_new_version artifact_path sha moved vp slug user) map_upload_error
    pure (slug, n)
