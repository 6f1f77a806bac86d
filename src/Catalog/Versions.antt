-- ===== src/Catalog/Versions.antt =====
-- What the upload of a new version makes of the catalogue.
use text.Mathlib.Text.{◌==◌ as str_eq}
use byte_battle.Prelude.{
  ℕ, suc, ◌%◌, ◌<◌, ◌≡◌, refl, sym, ap, ◌∙◌, subst, Option, none, some, Bool, true, false, [], ◌∷◌,
  ◌++◌, String, find?, filter, update, length, arith,
}
use byte_battle.Db.Rows.{Db, Problem, ProblemVersion, Uuid}
use byte_battle.ApiErr.{problem_not_found}
use byte_battle.Db.Exec.{
  World, or_missing, Action, ok, pure, ◌>>=◌, statement, transaction, transaction-ok, next_call,
  >>=-eq-ok,
}
use byte_battle.Queries.Problems.{
  get_problem_catalog_by_slug, lock_problem_for_update, set_problem_current_version, problem_is,
  at_version,
}
use byte_battle.Queries.ProblemVersions.{
  version_of, max_version, count_problem_versions, get_max_problem_version, create_problem_version,
}
use byte_battle.Prelude.Int.{int32_of}
use byte_battle.Problem.Validator.{times, limits_time_ms, limits_memory_kb}
use byte_battle.Catalog.{
  ValidatedProblem, max_versions_per_problem, may_add_version, publish_version, upload_version_of,
  upload_new_version,
}

-- The database with one more version, which is its problem's current one.
abbrev pub with_version : ProblemVersion → ℕ → Db → Db
with_version v now d = record d {
  problem_versions = d.problem_versions ++ (v ∷ []);
  next_version_id = suc d.next_version_id;
  problems = update (problem_is v.problem_id) (at_version v.id now) d.problems;
}

may_add_version-ok :
    (slug : String) (u : Uuid) (w : World) (p : Problem)
    → (may_add_version slug u w).0 ≡ ok p
    → (find? (λ q. str_eq q.slug slug) w.db.problems ≡ some p)
      × (p.owner_user_id ≡ some u)
      × (length (filter (version_of p.id) w.db.problem_versions) < max_versions_per_problem)
      × ((may_add_version slug u w).1 ≡ next_call (next_call w))
unfolding may_add_version get_problem_catalog_by_slug count_problem_versions statement
may_add_version-ok slug u w p h = ground arith

-- The row of a version that is uploaded by the user `u` to the catalogue of `w`.
abbrev pub uploaded_row : ValidatedProblem → Uuid → World → ℕ → ℕ → String → String → ProblemVersion
uploaded_row vp u w problem number path hash = record {
  id = w.db.next_version_id;
  problem_id = problem;
  version = number;
  artifact_path = path;
  artifact_sha256 = hash;
  limits_time_ms = int32_of vp.manifest.time_limit_ms;
  limits_memory_kb = int32_of (times vp.manifest.memory_limit_mb 1024);
  checker_type = "diff";
  reference_language = vp.reference_lang;
  created_by_user_id = some u;
  created_at = w.now;
  test_case_count = length vp.test_cases % 4294967296;
  difficulty = vp.manifest.difficulty;
}

module _ (path : String → ℕ → String) (vp : ValidatedProblem) (slug : String) (u : Uuid) where
  -- The row of the version that follows the last one of a problem.
  abbrev next_row : ℕ → String → World → ProblemVersion
  next_row id hash w =
      let last = max_version id w.db.problem_versions in
      uploaded_row vp u w id (suc last % 4294967296) (path slug (suc last)) hash

  -- The catalogue `d` after the upload of version n for the slug to the catalogue of `w`, with the
  -- hash of its directory and the success of its renaming.
  abbrev Added : Option String → Bool → ℕ → World → Db → Type 0
  Added sha moved n w d =
      (p : Problem) × (hash : String) × (find? (λ q. str_eq q.slug slug) w.db.problems ≡ some p)
      × (sha ≡ some hash)
      × (moved ≡ true)
      × (n ≡ (next_row p.id hash w).version)
      × (d ≡ with_version (next_row p.id hash w) w.now w.db)

  -- The same, by a user who may upload it.
  abbrev pub Published : Option String → Bool → ℕ → World → Db → Type 0
  Published sha moved n w d =
      (p : Problem) × (hash : String) × (find? (λ q. str_eq q.slug slug) w.db.problems ≡ some p)
      × (p.owner_user_id ≡ some u)
      × (length (filter (version_of p.id) w.db.problem_versions) < max_versions_per_problem)
      × (sha ≡ some hash)
      × (moved ≡ true)
      × (n ≡ (next_row p.id hash w).version)
      × (d ≡ with_version (next_row p.id hash w) w.now w.db)

  publish_version-ok :
      (id : ℕ) (sha : String) (w : World) (v : ProblemVersion)
      → (publish_version path vp slug id sha u w).0 ≡ ok v
      → (v ≡ next_row id sha w)
        × ((publish_version path vp slug id sha u w).1.db
            ≡ with_version (next_row id sha w) w.now w.db)
  unfolding publish_version lock_problem_for_update get_max_problem_version create_problem_version
      set_problem_current_version statement limits_time_ms limits_memory_kb
  publish_version-ok id sha w v h = ground arith

  catalog-ok :
      (w : World) (p : Problem)
      → (or_missing (get_problem_catalog_by_slug slug) problem_not_found w).0 ≡ ok p
      → (find? (λ q. str_eq q.slug slug) w.db.problems ≡ some p)
        × ((or_missing (get_problem_catalog_by_slug slug) problem_not_found w).1 ≡ next_call w)
  unfolding get_problem_catalog_by_slug statement
  catalog-ok w p h = ground arith

  upload_version_of-ok :
      (sha : String) (w : World) (n : ℕ)
      → (upload_version_of path (some sha) true vp slug u w).0 ≡ ok n
      → Added (some sha) true n w (upload_version_of path (some sha) true vp slug u w).1.db
  unfolding upload_version_of
  upload_version_of-ok sha w n h =
      let publish : ℕ → Action ProblemVersion = λ i. publish_version path vp slug i sha u in
      let rest : Problem → Action ℕ = λ q. (transaction (publish q.id) >>= λ pv. pure pv.version) in
      let (p, e, run) =
        >>=-eq-ok (or_missing (get_problem_catalog_by_slug slug) problem_not_found) rest w n h in
      let (found, next) = catalog-ok w p e in
      let step : upload_version_of path (some sha) true vp slug u w ≡ rest p (next_call w) =
        run ∙ ap (rest p) next in
      let (v, e', run') =
        >>=-eq-ok (transaction (publish p.id)) (λ pv. pure pv.version) (next_call w) n
          (ap (λ r. r.0) (sym step) ∙ h) in
      let (done, kept) = transaction-ok (publish p.id) (next_call w) v e' in
      let (row, made) = publish_version-ok p.id sha (next_call (next_call w)) v done in
      let same : ok n ≡ ok v.version = sym h ∙ ap (λ r. r.0) (step ∙ run') in
      let number : n ≡ v.version = cc in
      (
        p,
        sha,
        found,
        refl,
        refl,
        number ∙ ap (λ x. x.version) row,
        ap (λ r. r.1.db) (step ∙ run') ∙ kept ∙ made,
      )

  upload_version_of-Added :
      (sha : Option String) (moved : Bool) (w : World) (n : ℕ)
      → (upload_version_of path sha moved vp slug u w).0 ≡ ok n
      → Added sha moved n w (upload_version_of path sha moved vp slug u w).1.db
  unfolding upload_version_of
  upload_version_of-Added none moved w n h = absurd (ground arith)
  upload_version_of-Added (some s) false w n h = absurd (ground arith)
  upload_version_of-Added (some s) true w n h = upload_version_of-ok s w n h

  -- When UploadNewVersion succeeds, whatever round trips there were, the slug's problem belongs to the
  -- user and had fewer than ten versions, the directory was hashed and renamed, and the catalogue has
  -- gained one row, which is the problem's current version, and nothing else. The row has the number
  -- after the problem's largest one, as an int32, which is the number returned, the path of that
  -- number, the hash, the limits, language and difficulty of the archive, the number of its test
  -- cases, and the user.
  pub upload_new_version-ok :
      (sha : Option String) (moved : Bool) (w : World) (n : ℕ)
      → (upload_new_version path sha moved vp slug u w).0 ≡ ok n
      → Published sha moved n w (upload_new_version path sha moved vp slug u w).1.db
  unfolding upload_new_version
  upload_new_version-ok sha moved w n h =
      let upload = upload_version_of path sha moved vp slug u in
      let (q, e, run) = >>=-eq-ok (may_add_version slug u) (λ _. upload) w n h in
      let (found, owned, few, next) = may_add_version-ok slug u w q e in
      let step = run ∙ ap upload next in
      let (p, hash, found', hashed, renamed, number, made) =
        upload_version_of-Added sha moved (next_call (next_call w)) n
          (ap (λ r. r.0) (sym step) ∙ h) in
      let one_row : some q ≡ some p = sym found ∙ found' in
      let same_row : q ≡ p = cc in
      let (owned', few') =
        subst
          (λ r.
            (r.owner_user_id ≡ some u)
            × (length (filter (version_of r.id) w.db.problem_versions) < max_versions_per_problem))
          same_row (owned, few) in
      (p, hash, found', owned', few', hashed, renamed, number, ap (λ r. r.1.db) step ∙ made)
