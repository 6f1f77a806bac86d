-- ===== src/Catalog/Novelty.antt =====
-- What the upload of a new problem makes of the catalogue.
use Prim.Native.String.{◌++◌ as concat}
use text.Mathlib.Text.{◌==◌ as str_eq}
use byte_battle.Prelude.{
  ℕ, zero, suc, ◌+◌, ◌<◌, ◌≡◌, refl, sym, ap, subst, ◌∙◌, Option, none, some, Bool, true, false,
  List, [], ◌∷◌, ◌++◌, String, find?, inl, inr, Bool-cases, Option-cases, arith,
}
use byte_battle.Db.Rows.{Db, Problem, ProblemVersion, Uuid, Visibility, published}
use byte_battle.Db.Exec.{
  World, Action, ok, pure, ◌>>◌, transaction, transaction-ok, next_call, statement, >>=-eq-ok,
}
use byte_battle.Queries.Problems.{
  get_problem_catalog_by_slug, create_problem_catalog, set_problem_current_version,
}
use byte_battle.Queries.ProblemVersions.{create_problem_version}
use byte_battle.Catalog.{ValidatedProblem}
use byte_battle.Catalog.Versions.{with_version, uploaded_row}
use byte_battle.Problem.Validator.{limits_time_ms, limits_memory_kb}
use byte_battle.Catalog.Upload.{
  Calls, UploadResult, slug_base, generate_slug, publish_problem, upload_new_problem,
  upload_problem,
}

-- The database with one more problem.
abbrev pub with_problem : Problem → Db → Db
with_problem p d = record d {
  problems = d.problems ++ (p ∷ []);
  next_problem_id = suc d.next_problem_id;
}

ok_injective : (a b : UploadResult) → ok a ≡ ok b → a ≡ b
ok_injective a b h = cc

module _ (ext : Calls) where
  -- The slug of the k-th call of rand.Read.
  abbrev pub IsDrawn : String → ℕ → List ℕ → String → Type 0
  IsDrawn base k bytes slug =
      (ext.random k ≡ some bytes) × (slug ≡ concat base (concat "-" (ext.hex bytes)))

  -- A slug that the loop gives is drawn in one of its turns and no problem's, and the loop only reads.
  generate_slug-ok :
      (fuel i : ℕ) (base : String) (w : World) (slug : String)
      → (generate_slug ext fuel i base w).0 ≡ ok slug
      → (k : ℕ) × (bytes : List ℕ) × (k < i + fuel)
        × IsDrawn base k bytes slug
        × (find? (λ p. str_eq p.slug slug) w.db.problems ≡ none)
        × ((generate_slug ext fuel i base w).1.db ≡ w.db)
        × ((generate_slug ext fuel i base w).1.now ≡ w.now)
  unfolding generate_slug get_problem_catalog_by_slug statement
  generate_slug-ok zero i base w slug h = absurd (ground arith)
  generate_slug-ok (suc fuel) i base w slug h = elim (Option-cases (ext.random i)) [
    | inl failed ↦ absurd (ground arith)
    | inr (bytes, e) ↦
        let drawn = concat base (concat "-" (ext.hex bytes)) in
        elim (Bool-cases (w.fails w.calls)) [
          | inl down ↦ absurd (ground arith)
          | inr up ↦ elim (Option-cases (find? (λ p. str_eq p.slug drawn) w.db.problems)) [
            | inl free ↦
                let same : drawn ≡ slug = ground arith in
                (
                  i,
                  bytes,
                  omega arith,
                  (e, sym same),
                  subst (λ s. find? (λ p. str_eq p.slug s) w.db.problems ≡ none) same free,
                  ground arith,
                  ground arith,
                )
            | inr (p, taken) ↦
                let again : generate_slug ext (suc fuel) i base w
                    ≡ generate_slug ext fuel (suc i) base (next_call w) =
                  rw (generate_slug, e, up, taken) refl in
                let (k, bs, low, own, free, same_db, same_now) =
                  generate_slug-ok fuel (suc i) base (next_call w) slug
                    (ap (λ x. x.0) (sym again) ∙ h) in
                (
                  k,
                  bs,
                  omega arith,
                  own,
                  free,
                  ap (λ x. x.1.db) again ∙ same_db,
                  ap (λ x. x.1.now) again ∙ same_now,
                )
          ]
        ]
  ]

  module _ (vp : ValidatedProblem) (owner : Uuid) (visibility : Visibility) where
    -- The row of the problem that is uploaded to the catalogue of `w`.
    abbrev problem_row : String → World → Problem
    problem_row slug w = record {
      id = w.db.next_problem_id;
      slug = slug;
      owner_user_id = some owner;
      visibility = visibility;
      status = published;
      title = ext.text vp.manifest.title;
      created_at = w.now;
      updated_at = w.now;
      current_version_id = none;
    }

    -- The catalogue of `w` with that row, and its first version, which is the current one.
    abbrev with_new : String → String → World → Db
    with_new slug hash w =
        with_version (uploaded_row vp owner w w.db.next_problem_id 1 (concat slug "/v1") hash) w.now
          (with_problem (problem_row slug w) w.db)

    publish_problem-ok :
        (slug sha : String) (w : World) (r : Problem × ProblemVersion)
        → (publish_problem ext vp slug sha owner visibility w).0 ≡ ok r
        → (publish_problem ext vp slug sha owner visibility w).1.db ≡ with_new slug sha w
    unfolding publish_problem create_problem_catalog create_problem_version
        set_problem_current_version statement limits_time_ms limits_memory_kb
    publish_problem-ok slug sha w r h = ground arith

    -- The result, and the catalogue `d` after the upload to the catalogue of `w`, with the hash of its
    -- directory and the success of its renaming.
    abbrev pub IsNew : Option String → Bool → UploadResult → World → Db → Type 0
    IsNew sha moved r w d =
        (slug hash : String) × (k : ℕ) × (bytes : List ℕ) × (k < 10)
        × IsDrawn (slug_base ext vp.manifest.title) k bytes slug
        × (find? (λ q. str_eq q.slug slug) w.db.problems ≡ none)
        × (sha ≡ some hash)
        × (moved ≡ true)
        × (r ≡ record { slug = slug; version = 1 })
        × (d ≡ with_new slug hash w)

    upload_new_problem-some :
        (sha : String) (w : World) (r : UploadResult)
        → (upload_new_problem ext (some sha) true vp owner visibility w).0 ≡ ok r
        → IsNew
            (some sha)
            true
            r
            w
            (upload_new_problem ext (some sha) true vp owner visibility w).1.db
    unfolding upload_new_problem
    upload_new_problem-some sha w r h =
        let publish = λ (s : String). publish_problem ext vp s sha owner visibility in
        let result : String → UploadResult = λ s. record { slug = s; version = 1 } in
        let rest : String → Action UploadResult = λ s. transaction (publish s) >> pure (result s) in
        let (slug, e, run) = >>=-eq-ok (generate_slug ext 10 0 _) rest w r h in
        let (k, bytes, low, drawn, free, same_db, same_now) = generate_slug-ok 10 0 _ w slug e in
        let w' = (generate_slug ext 10 0 _ w).1 in
        let (rows, e', run') =
          >>=-eq-ok (transaction (publish slug)) (λ _. pure (result slug)) w' r
            (ap (λ x. x.0) (sym run) ∙ h) in
        let (done, kept) = transaction-ok (publish slug) w' rows e' in
        let made = publish_problem-ok slug sha (next_call w') rows done in
        let last : ok (result slug) ≡ ok r = ap (λ x. x.0) (sym (run ∙ run')) ∙ h in
        let from : Db → ℕ → Db = λ d now. with_new slug sha (record w { db = d; now = now }) in
        (
          slug,
          sha,
          k,
          bytes,
          low,
          drawn,
          free,
          refl,
          refl,
          sym (ok_injective (result slug) r last),
          ap (λ x. x.1.db) (run ∙ run')
              ∙ kept
              ∙ made
              ∙ ap (from w'.db) same_now
              ∙ ap (λ d. from d w.now) same_db,
        )

    upload_new_problem-IsNew :
        (sha : Option String) (moved : Bool) (w : World) (r : UploadResult)
        → (upload_new_problem ext sha moved vp owner visibility w).0 ≡ ok r
        → IsNew sha moved r w (upload_new_problem ext sha moved vp owner visibility w).1.db
    unfolding upload_new_problem
    upload_new_problem-IsNew none moved w r h = absurd (ground arith)
    upload_new_problem-IsNew (some s) false w r h = absurd (ground arith)
    upload_new_problem-IsNew (some s) true w r h = upload_new_problem-some s w r h

    -- When the upload of an archive without a slug succeeds, whatever round trips there were, its slug
    -- is made from the title and from one of the first ten calls of rand.Read and was no problem's,
    -- the directory was hashed and renamed, and the catalogue has gained two rows and nothing else: a
    -- published problem of the user with the visibility asked for and the archive's title, and its
    -- version 1, which is the current one, with the path of version 1, the hash, the limits, the
    -- language and the difficulty of the archive, the number of its test cases, and the user.
    pub upload_problem-IsNew :
        (sha : Option String) (moved : Bool) (w : World) (r : UploadResult)
        → str_eq vp.slug "" ≡ true
        → (upload_problem ext sha moved vp owner visibility w).0 ≡ ok r
        → IsNew sha moved r w (upload_problem ext sha moved vp owner visibility w).1.db
    unfolding upload_problem
    upload_problem-IsNew sha moved w r no_slug h =
        let same : upload_problem ext sha moved vp owner visibility w
            ≡ upload_new_problem ext sha moved vp owner visibility w =
          rw (no_slug, upload_problem) refl in
        subst (λ x. IsNew sha moved r w x.1.db) (sym same)
          (upload_new_problem-IsNew sha moved w r (ap (λ x. x.0) (sym same) ∙ h))
