-- ===== src/Catalog/Pages.antt =====
-- Pages of the catalogue: what ListProblems returns.
use byte_battle.Prelude.{
  ℕ, ◌≤◌, ◌≡◌, sym, ap, ◌∙◌, Bool, true, ◌&&◌, some, List, [], ◌∷◌, String, map, filter, length,
  take, drop, arith, inl, inr, Option-cases,
}
use byte_battle.Prelude.Int.{ℤ, int32_of}
use byte_battle.Prelude.Select.{
  All, length-take-le, All-take, All-drop, All-reverse, All-order_by, All-filter,
}
use byte_battle.Db.Rows.{Db, Problem, ProblemVersion}
use byte_battle.Db.Exec.{World, Result, ok, pure, ◌>>=◌, >>=-eq-ok, statement}
use byte_battle.Queries.Listings.{
  is_listed, is_match, current_version, join_versions, search_row, search_rows, newest_first,
  ListPublicProblemsSearchRow, count_public_problems, list_public_problems_search,
}
use byte_battle.Catalog.Browse.{ProblemMeta, meta_of, list_problems}

-- The row is a problem with its current version, and the problem passes the test.
abbrev pub IsCurrent : Db → (Problem → Bool) → Problem × ProblemVersion → Type 0
IsCurrent d test r = (test r.0 ≡ true) × (current_version d r.0.current_version_id ≡ some r.1)

join_versions-IsCurrent :
    (d : Db) (test : Problem → Bool) (ps : List Problem)
    → All (λ p. test p ≡ true) ps
    → All (IsCurrent d test) (join_versions d ps)
unfolding join_versions
join_versions-IsCurrent d test [] a = tt
join_versions-IsCurrent d test (p ∷ ps) a =
    elim (Option-cases (current_version d p.current_version_id)) [
      | inl missing ↦ rw (missing, join_versions) (join_versions-IsCurrent d test ps a.1)
      | inr (v, found) ↦
          rw (found, join_versions) ((a.0, found), join_versions-IsCurrent d test ps a.1)
    ]

ok_pair :
    (xs ys : List ProblemMeta) (m n : ℕ)
    → ◌≡◌ {A = Result (List ProblemMeta × ℕ)} (ok (xs, m)) (ok (ys, n))
    → (xs ≡ ys) × (m ≡ n)
ok_pair xs ys m n h = ground arith

module _ (contains : String → String → Bool) (q : String) where
  -- The test that the count and the search have in common.
  abbrev pub is_hit : Problem → Bool
  is_hit p = is_listed p && is_match contains q p

  search_rows-IsCurrent : (d : Db) → All (IsCurrent d is_hit) (search_rows contains d q)
  search_rows-IsCurrent d =
      let seen = λ (p : Problem). is_hit p ≡ true in
      join_versions-IsCurrent d is_hit (newest_first (filter is_hit d.problems)) (
        All-reverse seen _ (All-order_by seen (λ p. p.created_at) _ (All-filter is_hit d.problems)))

  count-ok :
      (w : World) (n : ℕ)
      → (count_public_problems contains q w).0 ≡ ok n
      → (n ≡ length (filter is_hit w.db.problems))
        × ((count_public_problems contains q w).1.db ≡ w.db)
  unfolding count_public_problems statement
  count-ok w n h = ground arith

  search-ok :
      (limit offset : ℕ) (w : World) (rows : List ListPublicProblemsSearchRow)
      → (list_public_problems_search contains limit offset q w).0 ≡ ok rows
      → rows ≡ map search_row (take limit (drop offset (search_rows contains w.db q)))
  unfolding list_public_problems_search statement
  search-ok limit offset w rows h = ground arith

  module _ (limit offset : ℤ) where
    -- A page's rows.
    abbrev pub page : Db → List (Problem × ProblemVersion)
    page d = take (int32_of limit) (drop (int32_of offset) (search_rows contains d q))

    list_problems-page :
        (w : World) (metas : List ProblemMeta) (total : ℕ)
        → (list_problems contains q limit offset w).0 ≡ ok (metas, total)
        → (metas ≡ map meta_of (map search_row (page w.db)))
          × (total ≡ length (filter is_hit w.db.problems))
    unfolding list_problems
    list_problems-page w metas total h =
        let l = int32_of limit in
        let o = int32_of offset in
        let search = list_public_problems_search contains l o q in
        let (n, counted, e) =
          >>=-eq-ok (count_public_problems contains q)
            (λ t. search >>= λ rows. pure (map meta_of rows, t)) w (metas, total) h in
        let w' = (count_public_problems contains q w).1 in
        let h' : ((search >>= λ rows. pure (map meta_of rows, n)) w').0 ≡ ok (metas, total) =
          ap (λ x. x.0) (sym e) ∙ h in
        let (rows, listed, e') =
          >>=-eq-ok search (λ rows. pure (map meta_of rows, n)) w' (metas, total) h' in
        let last : ◌≡◌ {A = Result (List ProblemMeta × ℕ)} (ok (map meta_of rows, n))
            (ok (metas, total)) =
          ap (λ x. x.0) (sym e') ∙ h' in
        let (is_count, same) = count-ok w n counted in
        let (one, two) = ok_pair (map meta_of rows) metas n total last in
        (
          sym one
              ∙ ap (map meta_of)
                  (search-ok l o w' rows listed ∙ ap (λ d. map search_row (page d)) same),
          sym two ∙ is_count,
        )

    -- When ListProblems succeeds, its page shows at most as many rows as the limit, each a published
    -- and public problem that matches the search, with its current version, and the total counts the
    -- problems that are published, public and match.
    pub list_problems-shows :
        (w : World) (metas : List ProblemMeta) (total : ℕ)
        → (list_problems contains q limit offset w).0 ≡ ok (metas, total)
        → (metas ≡ map meta_of (map search_row (page w.db)))
          × (length (page w.db) ≤ int32_of limit)
          × All (IsCurrent w.db is_hit) (page w.db)
          × (total ≡ length (filter is_hit w.db.problems))
    list_problems-shows w metas total h =
        let (shown, counted) = list_problems-page w metas total h in
        let all = search_rows contains w.db q in
        let rest = drop (int32_of offset) all in
        (
          shown,
          length-take-le (int32_of limit) rest,
          All-take (IsCurrent w.db is_hit) (int32_of limit) rest
              (All-drop (IsCurrent w.db is_hit) (int32_of offset) all (search_rows-IsCurrent w.db)),
          counted,
        )
