-- ===== src/Catalog/Seeded.antt =====
-- Which slugs have a problem with a current version.
use text.Mathlib.Text.{◌==◌ as str_eq}
use byte_battle.Prelude.{
  ℕ, ◌≡◌, refl, if◌then◌else◌, Bool, true, false, none, some, Option, List, [], ◌∷◌, ◌++◌, String,
  find?, update, arith,
}
use byte_battle.Db.Rows.{Problem}
use byte_battle.Queries.Problems.{problem_is, at_version}

abbrev pub is_some : Option ℕ → Bool
is_some none = false
is_some (some _) = true

-- The catalogue's row of the slug has a current version.
abbrev pub is_seeded : String → List Problem → Bool
is_seeded slug [] = false
is_seeded slug (p ∷ ps) =
    if str_eq p.slug slug then is_some p.current_version_id else is_seeded slug ps

pub is_seeded-find? :
    (slug : String) (ps : List Problem) (p : Problem)
    → find? (λ q. str_eq q.slug slug) ps ≡ some p
    → is_seeded slug ps ≡ is_some p.current_version_id
is_seeded-find? slug [] p h = cc
is_seeded-find? slug (q ∷ ps) p h = ground (arith, is_seeded-find? slug ps p)

pub is_seeded-missing :
    (slug : String) (ps : List Problem)
    → find? (λ q. str_eq q.slug slug) ps ≡ none
    → is_seeded slug ps ≡ false
is_seeded-missing slug [] h = refl
is_seeded-missing slug (q ∷ ps) h = ground (arith, is_seeded-missing slug ps)

pub is_seeded-append :
    (slug : String) (ps qs : List Problem)
    → is_seeded slug ps ≡ true
    → is_seeded slug (ps ++ qs) ≡ true
is_seeded-append slug [] qs h = cc
is_seeded-append slug (p ∷ ps) qs h = ground (arith, is_seeded-append slug ps qs)

module _ (slug : String) (id v now : ℕ) where
  pub is_seeded-update :
      (ps : List Problem)
      → is_seeded slug ps ≡ true
      → is_seeded slug (update (problem_is id) (at_version v now) ps) ≡ true
  is_seeded-update [] h = h
  is_seeded-update (p ∷ ps) h = ground (arith, is_seeded-update ps)

  pub update-seeds :
      (ps : List Problem) (p : Problem)
      → find? (λ q. str_eq q.slug slug) ps ≡ some p
      → p.id ≡ id
      → is_seeded slug (update (problem_is id) (at_version v now) ps) ≡ true
  update-seeds [] p h e = cc
  update-seeds (q ∷ ps) p h e = ground (arith, update-seeds ps p)

  pub append-seeds :
      (ps : List Problem) (p : Problem)
      → find? (λ q. str_eq q.slug slug) ps ≡ none
      → str_eq p.slug slug ≡ true
      → p.id ≡ id
      → is_seeded slug (update (problem_is id) (at_version v now) (ps ++ (p ∷ []))) ≡ true
  append-seeds [] p h s e = ground arith
  append-seeds (q ∷ ps) p h s e = ground (arith, append-seeds ps p)
