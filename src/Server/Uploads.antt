-- ===== src/Server/Uploads.antt =====
-- What a successful upload of an archive with one new problem shows.
use text.Mathlib.Text.{◌==◌ as str_eq}
use byte_battle.Prelude.{
  ℕ, ◌<◌, ◌≡◌, refl, sym, ap, subst, ◌∙◌, Bool, true, Option, some, List, [], ◌∷◌, String, length,
  filter, inl, inr, Bool-cases, Option-cases, arith,
}
use byte_battle.Db.Rows.{Uuid, Visibility}
use byte_battle.Db.Exec.{
  World, ok, pure, ◌>>=◌, next_call, statement, >>=-eq-ok, >>=-after_ok, Result-cases,
}
use byte_battle.Problem.{Text}
use byte_battle.Submission.{Executor}
use byte_battle.Queries.Problems.{owned_by, count_user_problems}
use byte_battle.Catalog.{ValidatedProblem, validate_upload_batch, check_batch}
use byte_battle.Catalog.Upload.{UploadResult, Calls, upload_problem}
use byte_battle.Catalog.Novelty.{IsNew, upload_problem-IsNew}
use byte_battle.Catalog.Validation.{valid}
use byte_battle.Catalog.Soundness.{AllSound, problem_dirs, validate_archive-AllSound}
use byte_battle.Server.Problems.{
  Form, Archive, validated_archive, upload_each, map_upload_error, handle_upload_problem,
}
use byte_battle.Server.Auth.{or_code, coded}

-- The batch of one new problem is accepted below the limit.
batch_of_one :
    (vp : ValidatedProblem) (user : Uuid) (w : World)
    → str_eq vp.slug "" ≡ true
    → (validate_upload_batch (vp ∷ []) user w).0 ≡ ok tt
    → (length (filter (λ p. owned_by user p.owner_user_id) w.db.problems) < 20)
      × ((validate_upload_batch (vp ∷ []) user w).1 ≡ next_call w)
unfolding validate_upload_batch check_batch count_user_problems statement
batch_of_one vp user w new h = ground arith

module _ (trim_space : Text → Text) (run : Executor) (ready : Bool) (ext : ℕ → Calls)
    (sha : ℕ → Option String) (moved : ℕ → Bool) where
  upload_one :
      (vp : ValidatedProblem) (user : Uuid) (visibility : Visibility) (w : World)
      (rs : List UploadResult)
      → str_eq vp.slug "" ≡ true
      → (upload_each trim_space run ready ext sha moved 0 (vp ∷ []) user visibility w).0 ≡ ok rs
      → (r : UploadResult) × (rs ≡ r ∷ [])
        × IsNew
            (ext 0)
            vp
            user
            visibility
            (sha 0)
            (moved 0)
            r
            w
            (upload_each trim_space run ready ext sha moved 0 (vp ∷ []) user visibility w).1.db
  unfolding upload_each
  upload_one vp user visibility w rs new h =
      let upload = upload_problem (ext 0) (sha 0) (moved 0) vp user visibility in
      elim (Result-cases (upload w).0) [
        | inr (e, failed) ↦ absurd (ground arith)
        | inl (r, done) ↦
            let runs =
              >>=-after_ok (or_code upload map_upload_error) (λ r. pure [] >>= λ rs. pure (r ∷ rs))
                w r (ap (coded map_upload_error) done) in
            (
              r,
              ground arith,
              subst (IsNew (ext 0) vp user visibility (sha 0) (moved 0) r w)
                  (ap (λ x. x.1.db) (sym runs))
                  (upload_problem-IsNew (ext 0) vp user visibility (sha 0) (moved 0) w r new done),
            )
      ]

  -- When the upload of an archive with one problem, which has no slug, is answered with success,
  -- whatever round trips there were, the problem is sound: it is what its directory holds, its
  -- manifest is in order, and its reference solution has passed its 1 to 100 test cases. The user had
  -- fewer than 20 problems. The slug of the answer is made from the title and random bytes and was no
  -- problem's, and the catalogue has gained two rows and nothing else: a published problem of the
  -- user with the form's visibility and the archive's title, and its version 1, which is the current
  -- one, with the path of version 1, the hash of the directory, the archive's limits, language and
  -- difficulty, the number of its test cases, and the user.
  pub handle_upload_problem-IsNew :
      (form : Form) (archive : Archive) (user : Uuid) (w : World) (vp : ValidatedProblem)
      (rs : List UploadResult)
      → validated_archive trim_space run ready archive ≡ valid (vp ∷ [])
      → str_eq vp.slug "" ≡ true
      → (handle_upload_problem trim_space run ready ext sha moved form archive user w).0 ≡ ok rs
      → (v : Visibility) × (r : UploadResult) × (form.visibility ≡ some v)
        × (rs ≡ r ∷ [])
        × AllSound trim_space run 0 (problem_dirs archive.root archive.entries) (vp ∷ [])
        × (length (filter (λ p. owned_by user p.owner_user_id) w.db.problems) < 20)
        × IsNew
            (ext 0)
            vp
            user
            v
            (sha 0)
            (moved 0)
            r
            w
            (handle_upload_problem trim_space run ready ext sha moved form archive user w).1.db
  unfolding handle_upload_problem
  handle_upload_problem-IsNew form archive user w vp rs checked new h =
      elim (Bool-cases form.parsed) [
        | inr bad ↦ absurd (ground arith)
        | inl parsed ↦ elim (Option-cases form.visibility) [
          | inl bad ↦ absurd (ground arith)
          | inr (v, seen) ↦ elim (Bool-cases form.has_file) [
            | inr bad ↦ absurd (ground arith)
            | inl file ↦
                let one : List ValidatedProblem = vp ∷ [] in
                let tail = upload_each trim_space run ready ext sha moved 0 one user v in
                let whole : handle_upload_problem trim_space run ready ext sha moved form archive
                      user w
                    ≡ (validate_upload_batch one user >>= λ _. tail) w =
                  rw (parsed, seen, file, checked, handle_upload_problem) refl in
                let (u, counted, e) =
                  >>=-eq-ok (validate_upload_batch one user) (λ _. tail) w rs
                    (ap (λ x. x.0) (sym whole) ∙ h) in
                let (few, next) = batch_of_one vp user w new counted in
                let run_from : handle_upload_problem trim_space run ready ext sha moved form archive
                      user w
                    ≡ tail (next_call w) =
                  whole ∙ e ∙ ap tail next in
                let (r, is_one, made) =
                  upload_one vp user v (next_call w) rs new (ap (λ x. x.0) (sym run_from) ∙ h) in
                let (_, _, _, _, sound) =
                  validate_archive-AllSound trim_space run ready archive.made archive.size
                    archive.extracted archive.root archive.entries one checked in
                (
                  v,
                  r,
                  seen,
                  is_one,
                  sound,
                  few,
                  subst (IsNew (ext 0) vp user v (sha 0) (moved 0) r w)
                      (ap (λ x. x.1.db) (sym run_from)) made,
                )
          ]
        ]
      ]
