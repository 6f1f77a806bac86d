-- ===== src/Problem/Store.antt =====
-- internal/problems/store.go: GetByPath and its cache. The reading of a problem's directory is a
-- parameter.
use byte_battle.Prelude.{
  ◌≡◌, refl, sym, if◌then◌else◌, Option, some, none, List, [], ◌∷◌, String, inl, inr, Option-cases,
  Bool-cases, ◌∙◌,
}
use text.Mathlib.Text.{◌==◌ as str_eq}
use text.Mathlib.TextEquality.{eq_iff}
use byte_battle.Problem.{Problem}

abbrev pub Cache : Type 0
Cache = List (String × Problem)

unfoldable pub cached : String → Cache → Option Problem
cached path [] = none
cached path ((q, p) ∷ c) = if str_eq q path then some p else cached path c

-- delete(store.cache, path)
unfoldable pub forget : String → Cache → Cache
forget path [] = []
forget path ((q, p) ∷ c) = let rest = forget path c in if str_eq q path then rest else (q, p) ∷ rest

module _ (load_problem : String → Option Problem) where
  abbrev keep : String → Option Problem → Cache → Option Problem × Cache
  keep path none c = (none, c)
  keep path (some p) c = (some p, (path, p) ∷ c)

  unfoldable pub get_by_path : String → Cache → Option Problem × Cache
  get_by_path path c = elim (cached path c) [
    | some p ↦ (some p, c)
    | none ↦ keep path (load_problem path) c
  ]

  -- What the cache has is what the files have.
  abbrev pub IsFaithful : Cache → Type 0
  IsFaithful c = (path : String) (p : Problem) → cached path c ≡ some p → load_problem path ≡ some p

  -- With a cache that agrees with the files, GetByPath gives what the files have.
  pub get_by_path-load :
      (path : String) (c : Cache) → IsFaithful c → (get_by_path path c).0 ≡ load_problem path
  unfolding get_by_path
  get_by_path-load path c v = elim (Option-cases (cached path c)) [
    | inr (p, e) ↦ rw (e, get_by_path) (sym (v path p e))
    | inl e ↦ elim (Option-cases (load_problem path)) [
      | inr (p, f) ↦ rw (e, f, get_by_path) refl
      | inl f ↦ rw (e, f, get_by_path) refl
    ]
  ]

  -- GetByPath keeps the cache in agreement with the files.
  pub get_by_path-IsFaithful :
      (path : String) (c : Cache) → IsFaithful c → IsFaithful ((get_by_path path c).1)
  unfolding get_by_path cached
  get_by_path-IsFaithful path c v = elim (Option-cases (cached path c)) [
    | inr (p, e) ↦ rw (e, get_by_path) v
    | inl e ↦ elim (Option-cases (load_problem path)) [
      | inr (p, f) ↦
          rw (e, f, get_by_path)
            (λ q r h. elim (Bool-cases (str_eq path q)) [
              | inl same ↦
                  let at : path ≡ q = (eq_iff path q).0 same in
                  let is_r : some p ≡ some r = sym (rw (same) refl) ∙ h in rw (← at) (f ∙ is_r)
              | inr other ↦ v q r (sym (rw (other) refl) ∙ h)
            ])
      | inl f ↦ rw (e, f, get_by_path) v
    ]
  ]
