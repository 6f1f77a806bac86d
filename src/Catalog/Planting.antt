-- ===== src/Catalog/Planting.antt =====
-- What the seeding of one slug makes of the catalogue.
use Prim.Native.String.{◌++◌ as concat}
use text.Mathlib.Text.{◌==◌ as str_eq}
use text.Mathlib.TextEquality.{eq_iff}
use byte_battle.Prelude.{
  ℕ, ◌≡◌, refl, sym, ap, subst, subst₂, ◌∙◌, ◌⊎◌, true, none, some, Option, [], ◌∷◌, ◌++◌, String,
  find?, update, arith, inl, inr, Bool-cases, Option-cases,
}
use byte_battle.Db.Rows.{Problem, public, published}
use byte_battle.Db.Exec.{
  no_rows, db_failure, World, Result, ok, err, transaction, transaction-ok, next_call, statement,
}
use byte_battle.Queries.Problems.{
  get_problem_catalog_by_slug, create_problem_catalog, set_problem_current_version, problem_is,
  at_version, new_problem,
}
use byte_battle.Queries.ProblemVersions.{create_problem_version}
use byte_battle.Catalog.Seeded.{
  is_some, is_seeded, is_seeded-find?, is_seeded-append, is_seeded-update, update-seeds,
  append-seeds,
}
use byte_battle.Catalog.Seeder.{
  Disk, InsertProblemArgs, latest_version_dir, detect_reference_language, version_str_to_int,
  insert_problem_rows, seed_files, seed_slug,
}

no_success : (w : World) → ¬ (◌≡◌ {A = Result (Unit {0})} (err db_failure) (ok tt))
no_success w h = cc

module _ (disk : Disk) where
  -- The problems after the rows of a known problem, or of a new one, have been inserted.
  insert-some :
      (args : InsertProblemArgs) (id : ℕ) (w : World)
      → args.catalog_id ≡ some id
      → (insert_problem_rows disk args w).0 ≡ ok tt
      → (v : ℕ) × ((insert_problem_rows disk args w).1.db.problems
          ≡ update (problem_is id) (at_version v w.now) w.db.problems)
  unfolding insert_problem_rows create_problem_version set_problem_current_version statement
  insert-some args id w e h = (w.db.next_version_id, ground arith)

  insert-none :
      (args : InsertProblemArgs) (w : World)
      → args.catalog_id ≡ none
      → (insert_problem_rows disk args w).0 ≡ ok tt
      → (v : ℕ) × (p : Problem) × (p.slug ≡ args.slug)
        × ((insert_problem_rows disk args w).1.db.problems
            ≡ update (problem_is p.id) (at_version v w.now) (w.db.problems ++ (p ∷ [])))
  unfolding insert_problem_rows create_problem_catalog create_problem_version
      set_problem_current_version statement
  insert-none args w e h =
      let p =
        new_problem
          (record {
            slug = args.slug;
            owner_user_id = none;
            visibility = public;
            status = published;
            title = disk.text args.problem.manifest.title;
          })
          w in
      (w.db.next_version_id, p, refl, ground arith)

  -- seedSlug that gets to its transaction.
  seed_files-ok :
      (slug : String) (id : Option ℕ) (w : World)
      → (seed_files disk slug id w).0 ≡ ok tt
      → (args : InsertProblemArgs) × (args.slug ≡ slug)
        × (args.catalog_id ≡ id)
        × (seed_files disk slug id w ≡ transaction (insert_problem_rows disk args) w)
  unfolding seed_files
  seed_files-ok slug id w h = elim (Option-cases (latest_version_dir disk slug)) [
    | inl e ↦ absurd (ground arith)
    | inr (latest, e) ↦
        let path = concat slug (concat "/" latest) in
        elim (Option-cases (disk.problem_at path)) [
          | inl e1 ↦ absurd (ground arith)
          | inr (problem, e1) ↦ elim (Option-cases (disk.sha_of path)) [
            | inl e2 ↦ absurd (ground arith)
            | inr (sha, e2) ↦ elim (Option-cases (disk.reference_at path)) [
              | inl e3 ↦ absurd (ground arith)
              | inr (entries, e3) ↦ elim (Option-cases (detect_reference_language disk entries)) [
                | inl e4 ↦ absurd (ground arith)
                | inr (lang, e4) ↦ (
                  record {
                    slug = slug;
                    catalog_id = id;
                    problem = problem;
                    artifact_path = path;
                    sha = sha;
                    ref_lang = lang;
                    version = version_str_to_int disk latest;
                  },
                  refl,
                  refl,
                  ground arith,
                )
              ]
            ]
          ]
        ]
  ]

  -- The slug is seeded, and what was seeded before still is.
  abbrev pub Seeds : String → World → World → Type 0
  Seeds slug w w' =
      (is_seeded slug w'.db.problems ≡ true)
      × ((s : String) → is_seeded s w.db.problems ≡ true → is_seeded s w'.db.problems ≡ true)

  rows-Seeds :
      (args : InsertProblemArgs) (w : World)
      → (insert_problem_rows disk args w).0 ≡ ok tt
      → ((args.catalog_id ≡ none) × (find? (λ q. str_eq q.slug args.slug) w.db.problems ≡ none))
        ⊎ ((p : Problem) × (args.catalog_id ≡ some p.id)
            × (find? (λ q. str_eq q.slug args.slug) w.db.problems ≡ some p))
      → Seeds args.slug w (insert_problem_rows disk args w).1
  rows-Seeds args w h (inl (e, missing)) =
      let (v, p, is_slug, made) = insert-none args w e h in
      let ps = w.db.problems ++ (p ∷ []) in
      (
        subst (λ x. is_seeded args.slug x ≡ true) (sym made)
            (append-seeds args.slug p.id v w.now w.db.problems p missing
              ((eq_iff p.slug args.slug).1 is_slug) refl),
        λ s seeded.
            subst (λ x. is_seeded s x ≡ true) (sym made)
              (is_seeded-update s p.id v w.now ps
                (is_seeded-append s w.db.problems (p ∷ []) seeded)),
      )
  rows-Seeds args w h (inr (p, e, found)) =
      let (v, made) = insert-some args p.id w e h in
      (
        subst (λ x. is_seeded args.slug x ≡ true) (sym made)
            (update-seeds args.slug p.id v w.now w.db.problems p found refl),
        λ s seeded.
            subst (λ x. is_seeded s x ≡ true) (sym made)
              (is_seeded-update s p.id v w.now w.db.problems seeded),
      )

  files-Seeds :
      (slug : String) (id : Option ℕ) (w : World)
      → (seed_files disk slug id w).0 ≡ ok tt
      → ((id ≡ none) × (find? (λ q. str_eq q.slug slug) w.db.problems ≡ none))
        ⊎ ((p : Problem) × (id ≡ some p.id)
            × (find? (λ q. str_eq q.slug slug) w.db.problems ≡ some p))
      → Seeds slug w (seed_files disk slug id w).1
  files-Seeds slug id w h known =
      let (args, is_slug, is_id, run) = seed_files-ok slug id w h in
      let (done, kept) =
        transaction-ok (insert_problem_rows disk args) w tt (ap (λ x. x.0) (sym run) ∙ h) in
      let known' =
        subst₂
          (λ s i.
            ((i ≡ none) × (find? (λ q. str_eq q.slug s) w.db.problems ≡ none))
            ⊎ ((p : Problem) × (i ≡ some p.id)
                × (find? (λ q. str_eq q.slug s) w.db.problems ≡ some p)))
          (sym is_slug) (sym is_id) known in
      let (own, others) = rows-Seeds args (next_call w) done known' in
      let same = ap (λ x. x.problems) (ap (λ x. x.1.db) run ∙ kept) in
      (
        subst₂ (λ s x. is_seeded s x ≡ true) is_slug (sym same) own,
        λ s seeded. subst (λ x. is_seeded s x ≡ true) (sym same) (others s seeded),
      )

  -- What the lookup of a slug gives.
  pub lookup-cases :
      (slug : String) (w : World)
      → (get_problem_catalog_by_slug slug w ≡ (err db_failure, next_call w))
        ⊎ ((get_problem_catalog_by_slug slug w ≡ (err no_rows, next_call w))
            × (find? (λ q. str_eq q.slug slug) w.db.problems ≡ none))
        ⊎ ((p : Problem) × (get_problem_catalog_by_slug slug w ≡ (ok p, next_call w))
            × (find? (λ q. str_eq q.slug slug) w.db.problems ≡ some p))
  unfolding get_problem_catalog_by_slug statement
  lookup-cases slug w = elim (Bool-cases (w.fails w.calls)) [
    | inl down ↦ inl (ground arith)
    | inr up ↦ elim (Option-cases (find? (λ q. str_eq q.slug slug) w.db.problems)) [
      | inl missing ↦ inr (inl (ground arith, missing))
      | inr (p, found) ↦ inr (inr (p, ground arith, found))
    ]
  ]

  pub seed_slug-Seeds :
      (slug : String) (w : World)
      → (seed_slug disk slug w).0 ≡ ok tt
      → Seeds slug w (seed_slug disk slug w).1
  unfolding seed_slug
  seed_slug-Seeds slug w h = elim (lookup-cases slug w) [
    | inl run ↦
        let stops : seed_slug disk slug w ≡ (err db_failure, next_call w) =
          rw (run, seed_slug) refl in
        absurd (no_success (next_call w) (ap (λ x. x.0) (sym stops) ∙ h))
    | inr (inl (run, missing)) ↦
        let goes : seed_slug disk slug w ≡ seed_files disk slug none (next_call w) =
          rw (run, seed_slug) refl in
        subst (λ x. Seeds slug w x.1) (sym goes)
          (files-Seeds slug none (next_call w) (ap (λ x. x.0) (sym goes) ∙ h) (inl (refl, missing)))
    | inr (inr (p, run, found)) ↦ elim (Option-cases p.current_version_id) [
      | inr (v, e) ↦
          let stays : seed_slug disk slug w ≡ (ok tt, next_call w) = rw (run, seed_slug, e) refl in
          subst (λ x. Seeds slug w x.1) (sym stays)
            (is_seeded-find? slug w.db.problems p found ∙ ap is_some e, λ s seeded. seeded)
      | inl e ↦
          let goes : seed_slug disk slug w ≡ seed_files disk slug (some p.id) (next_call w) =
            rw (run, seed_slug, e) refl in
          subst (λ x. Seeds slug w x.1) (sym goes)
            (files-Seeds slug (some p.id) (next_call w) (ap (λ x. x.0) (sym goes) ∙ h)
              (inr (p, refl, found)))
    ]
  ]
