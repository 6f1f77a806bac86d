-- ===== src/Catalog/Seeding.antt =====
-- What seeding makes of the catalogue, and that a second seeding changes nothing.
use byte_battle.Prelude.{
  ◌≡◌, refl, sym, ap, subst, ◌∙◌, true, false, some, List, [], ◌∷◌, String, inl, inr, Bool-cases,
  Option-cases,
}
use byte_battle.Prelude.Select.{All}
use byte_battle.Db.Exec.{World, ok, err, Result-cases, ◌>>◌, >>=-eq-ok, >>=-after_ok, >>=-after_err}
use byte_battle.Catalog.Seeded.{is_some, is_seeded, is_seeded-find?, is_seeded-missing}
use byte_battle.Catalog.Seeder.{DirEntry, Disk, seed_slug, seed_all, seed_builtins}
use byte_battle.Catalog.Planting.{lookup-cases, seed_slug-Seeds}

module _ (disk : Disk) where
  -- All the directories' slugs are seeded.
  abbrev pub AllSeeded : List DirEntry → World → Type 0
  AllSeeded es w = All (λ e. e.is_dir ≡ true → is_seeded e.name w.db.problems ≡ true) es

  seed_all-AllSeeded :
      (es : List DirEntry) (w : World)
      → (seed_all disk es w).0 ≡ ok tt
      → AllSeeded es (seed_all disk es w).1
        × ((s : String)
            → is_seeded s w.db.problems ≡ true
            → is_seeded s (seed_all disk es w).1.db.problems ≡ true)
  unfolding seed_all
  seed_all-AllSeeded [] w h = (tt, λ s seeded. seeded)
  seed_all-AllSeeded (e ∷ es) w h = elim (Bool-cases e.is_dir) [
    | inr file ↦
        let skips : seed_all disk (e ∷ es) w ≡ seed_all disk es w = rw (file, seed_all) refl in
        let (all, kept) = seed_all-AllSeeded es w (ap (λ x. x.0) (sym skips) ∙ h) in
        subst
          (λ x.
            AllSeeded (e ∷ es) x.1
            × ((s : String)
                → is_seeded s w.db.problems ≡ true
                → is_seeded s x.1.db.problems ≡ true))
          (sym skips) ((λ dir. cc, all), kept)
    | inl dir ↦
        let rest = seed_all disk es in
        let both : seed_all disk (e ∷ es) w ≡ (seed_slug disk e.name >> rest) w =
          rw (dir, seed_all) refl in
        let (u, first, run) =
          >>=-eq-ok (seed_slug disk e.name) (λ _. rest) w tt (ap (λ x. x.0) (sym both) ∙ h) in
        let w' = (seed_slug disk e.name w).1 in
        let (own, others) = seed_slug-Seeds disk e.name w first in
        let (all, kept) = seed_all-AllSeeded es w' (ap (λ x. x.0) (sym (both ∙ run)) ∙ h) in
        subst
          (λ x.
            AllSeeded (e ∷ es) x.1
            × ((s : String)
                → is_seeded s w.db.problems ≡ true
                → is_seeded s x.1.db.problems ≡ true))
          (sym (both ∙ run)) ((λ dir. kept e.name own, all), λ s seeded. kept s (others s seeded))
  ]

  -- Seeding a slug that is seeded changes nothing.
  seed_slug-idle :
      (slug : String) (w : World)
      → is_seeded slug w.db.problems ≡ true
      → (seed_slug disk slug w).1.db ≡ w.db
  unfolding seed_slug
  seed_slug-idle slug w seeded = elim (lookup-cases disk slug w) [
    | inl run ↦ rw (run, seed_slug) refl
    | inr (inl (run, missing)) ↦
        let no = is_seeded-missing slug w.db.problems missing in absurd (cc)
    | inr (inr (p, run, found)) ↦ elim (Option-cases p.current_version_id) [
      | inr (v, e) ↦ rw (run, seed_slug, e) refl
      | inl e ↦
          let no : is_seeded slug w.db.problems ≡ false =
            is_seeded-find? slug w.db.problems p found ∙ ap is_some e in
          absurd (cc)
    ]
  ]

  seed_all-idle :
      (es : List DirEntry) (w : World) → AllSeeded es w → (seed_all disk es w).1.db ≡ w.db
  unfolding seed_all
  seed_all-idle [] w all = refl
  seed_all-idle (e ∷ es) w all = elim (Bool-cases e.is_dir) [
    | inr file ↦ rw (file, seed_all) (seed_all-idle es w all.1)
    | inl dir ↦
        let idle = seed_slug-idle e.name w (all.0 dir) in
        let w' = (seed_slug disk e.name w).1 in
        elim (Result-cases (seed_slug disk e.name w).0) [
          | inl (u, done) ↦
              let goes : seed_all disk (e ∷ es) w ≡ seed_all disk es w' =
                rw (dir, seed_all)
                  (>>=-after_ok (seed_slug disk e.name) (λ _. seed_all disk es) w u done) in
              let all' =
                subst (λ d. All (λ x. x.is_dir ≡ true → is_seeded x.name d.problems ≡ true) es)
                  (sym idle) all.1 in
              ap (λ x. x.1.db) goes ∙ seed_all-idle es w' all' ∙ idle
          | inr (x, failed) ↦
              let stops : seed_all disk (e ∷ es) w ≡ (err x, w') =
                rw (dir, seed_all)
                  (>>=-after_err (seed_slug disk e.name) (λ _. seed_all disk es) w x failed) in
              ap (λ x. x.1.db) stops ∙ idle
        ]
  ]

  -- Once SeedBuiltins has succeeded, every directory of the store has a problem with a current
  -- version, and a later SeedBuiltins on that catalogue changes nothing, whatever round trips of it
  -- fail.
  pub seed_builtins-stable :
      (es : List DirEntry) (w w' : World)
      → disk.read_dir "" ≡ some es
      → (seed_builtins disk w).0 ≡ ok tt
      → w'.db ≡ (seed_builtins disk w).1.db
      → AllSeeded es w' × ((seed_builtins disk w').1.db ≡ w'.db)
  unfolding seed_builtins
  seed_builtins-stable es w w' read h later =
      let first : seed_builtins disk w ≡ seed_all disk es w = rw (read, seed_builtins) refl in
      let second : seed_builtins disk w' ≡ seed_all disk es w' = rw (read, seed_builtins) refl in
      let (all, _) = seed_all-AllSeeded es w (ap (λ x. x.0) (sym first) ∙ h) in
      let all' =
        subst (λ d. All (λ x. x.is_dir ≡ true → is_seeded x.name d.problems ≡ true) es)
          (sym (later ∙ ap (λ x. x.1.db) first)) all in
      (all', ap (λ x. x.1.db) second ∙ seed_all-idle es w' all')
