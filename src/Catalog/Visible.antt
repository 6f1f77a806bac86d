-- ===== src/Catalog/Visible.antt =====
-- Which problems users see.
use byte_battle.Prelude.{
  ◌≤◌, ◌≡◌, refl, sym, ap, ◌∙◌, ◌⊎◌, true, false, ◌&&◌, not, none, some, Option, List, [], ◌∷◌,
  String, find?, filter, length, arith, inl, inr, Bool-cases, Option-cases,
}
use byte_battle.Db.Rows.{Problem, ProblemVersion, Uuid}
use byte_battle.Db.Exec.{World, ok, next_call, statement, Result-cases}
use byte_battle.Queries.Problems.{get_problem_catalog_by_slug, has_slug, owned_by}
use byte_battle.Queries.Listings.{
  is_published, current_version, join_versions, ProblemWithArtifact,
  get_problem_with_artifact_by_slug,
}
use byte_battle.Problem as Files
use byte_battle.Problem.Store.{Cache, get_by_path, IsFaithful, get_by_path-load}
use byte_battle.Catalog.Browse.{is_private, artifact_of, get_problem}

nil_of_length : {A : Type 0} (xs : List A) → length xs ≤ 0 → xs ≡ []
nil_of_length [] l = refl
nil_of_length (x ∷ xs) l = absurd (omega arith)

-- A row that is found is the only one that is selected, if at most one is.
filter-one :
    (slug : String) (ps : List Problem) (p : Problem)
    → find? (has_slug slug) ps ≡ some p
    → length (filter (has_slug slug) ps) ≤ 1
    → filter (has_slug slug) ps ≡ p ∷ []
filter-one slug [] p h l = cc
filter-one slug (q ∷ ps) p h l = elim (Bool-cases (has_slug slug q)) [
  | inl same ↦ ground (arith, nil_of_length (filter (has_slug slug) ps))
  | inr other ↦ ground (arith, filter-one slug ps p)
]

-- The user may see the problem: it is published, and public, unlisted, or the user's.
pub record MaySee (u : Uuid) (p : Problem) : Type 0 where
  pub published : is_published p.status ≡ true
  pub open_or_own : (is_private p.visibility ≡ false) ⊎ (p.owner_user_id ≡ some u)

artifact_of-ok :
    (slug : String) (u : Uuid) (w : World) (path : String)
    → (artifact_of slug u w).0 ≡ ok path
    → (p : Problem) × (row : ProblemWithArtifact) × (find? (has_slug slug) w.db.problems ≡ some p)
      × (is_published p.status ≡ true)
      × ((is_private p.visibility && not (owned_by u p.owner_user_id)) ≡ false)
      × ((get_problem_with_artifact_by_slug slug (next_call w)).0 ≡ ok row)
      × (path ≡ row.artifact_path)
unfolding artifact_of get_problem_catalog_by_slug statement
artifact_of-ok slug u w path h = elim (Option-cases (find? (has_slug slug) w.db.problems)) [
  | inl missing ↦ absurd (ground arith)
  | inr (p, found) ↦ elim (Result-cases (get_problem_with_artifact_by_slug slug (next_call w)).0) [
    | inl (row, read) ↦ (p, row, found, ground arith, ground arith, read, ground arith)
    | inr (x, failed) ↦ absurd (ground arith)
  ]
]

row_of-one :
    (slug : String) (w : World) (p : Problem) (row : ProblemWithArtifact)
    → filter (has_slug slug) w.db.problems ≡ p ∷ []
    → (get_problem_with_artifact_by_slug slug w).0 ≡ ok row
    → (v : ProblemVersion) × (current_version w.db p.current_version_id ≡ some v)
      × (row.artifact_path ≡ v.artifact_path)
unfolding get_problem_with_artifact_by_slug join_versions statement
row_of-one slug w p row e h = elim (Option-cases (current_version w.db p.current_version_id)) [
  | inl missing ↦ absurd (ground arith)
  | inr (v, found) ↦ (v, found, ground arith)
]

own_or_open :
    (u : Uuid) (p : Problem)
    → (is_private p.visibility && not (owned_by u p.owner_user_id)) ≡ false
    → (is_private p.visibility ≡ false) ⊎ (p.owner_user_id ≡ some u)
own_or_open u p h = elim (Bool-cases (is_private p.visibility)) [
  | inr shown ↦ inl shown
  | inl closed ↦ inr (owner p.owner_user_id (ground arith))
]
  where
    owner : (o : Option Uuid) → owned_by u o ≡ true → o ≡ some u
    owner none h = cc
    owner (some v) h = ground arith

from_path-ok :
    (load : String → Option Files.Problem) (slug : String) (u : Uuid) (c : Cache) (w : World)
    (f : Files.Problem)
    → (get_problem load slug u c w).0.0 ≡ ok f
    → (path : String) × ((artifact_of slug u w).0 ≡ ok path)
      × ((get_by_path load path c).0 ≡ some f)
unfolding get_problem
from_path-ok load slug u c w f h = elim (Result-cases (artifact_of slug u w).0) [
  | inr (x, failed) ↦ absurd (ground arith)
  | inl (path, read) ↦ elim (Option-cases (get_by_path load path c).0) [
    | inl missing ↦ absurd (ground arith)
    | inr (g, loaded) ↦ (path, read, ground arith)
  ]
]

-- When slugs are unique and the store's cache agrees with the files, a problem that GetProblem gives
-- to a user is the one that the files have for the current version of the slug's problem, which is
-- published and which the user may see; so a private problem is given to its owner only.
pub get_problem-MaySee :
    (load : String → Option Files.Problem) (slug : String) (u : Uuid) (c : Cache) (w : World)
    (f : Files.Problem)
    → IsFaithful load c
    → length (filter (has_slug slug) w.db.problems) ≤ 1
    → (get_problem load slug u c w).0.0 ≡ ok f
    → (p : Problem) × (v : ProblemVersion) × (find? (has_slug slug) w.db.problems ≡ some p)
      × MaySee u p
      × (current_version w.db p.current_version_id ≡ some v)
      × (load v.artifact_path ≡ some f)
get_problem-MaySee load slug u c w f faithful unique h =
    let (path, read, got) = from_path-ok load slug u c w f h in
    let (p, row, found, stated, shown, joined, is_path) = artifact_of-ok slug u w path read in
    let one = filter-one slug w.db.problems p found unique in
    let (v, current, same) = row_of-one slug (next_call w) p row one joined in
    (
      p,
      v,
      found,
      record { published = stated; open_or_own = own_or_open u p shown },
      current,
      ap load (sym (is_path ∙ same)) ∙ sym (get_by_path-load load path c faithful) ∙ got,
    )
