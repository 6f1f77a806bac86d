-- ===== src/Game/Problems.antt =====
-- The problems of a game: numbered from 0, at least one and at most twenty, in the order in which
-- the creator named them.
use byte_battle.Prelude.{
  ℕ, zero, suc, ◌+◌, ◌≤◌, ◌<◌, ◌≡◌, refl, sym, ap, subst, ◌==◌, if◌then◌else◌, some, none, inl, inr,
  List, [], ◌∷◌, map, filter, find?, length, get_elem?, order_by, IsSorted, order_by-sorted,
  filter-append, arith, String,
}
use mathlib.Core.Option
use mathlib.Core.List.{append-nil}
use byte_battle.Db.Rows.{Db, Game, GameProblem}
use byte_battle.Db.Exec.{World}
use byte_battle.Queries.Games.{
  find_game, update_game, started, completed, cancelled_at, timed_out, delete_game_rows,
}
use byte_battle.Queries.GameProblems.{problem_in_game, at_index}
use byte_battle.Game.Create.{max_game_problems}
use byte_battle.Game.Change.{
  Change, nothing, create, join, leave, start, win, time_out, cancel, advance, remove, Changes,
  here, after, founded, IsNew, Numbered, none_left, numbered,
}
use byte_battle.Game.Tables.{
  find_game-update, find_game-delete, find_game-founded, founded-found, problems-delete,
}
use byte_battle.Game.Invariant.{update-found, IsConsistent, Change-IsConsistent, next_is_free}
use byte_battle.Game.Requests.{Request, serve, serve_induction}

abbrev pub problems_of : ℕ → Db → List GameProblem
problems_of i d = filter (problem_in_game i) d.game_problems

abbrev pub problem_ids : List GameProblem → List String
problem_ids = map (λ p. p.problem_id)

pub filter-Numbered :
    {i idx : ℕ} {slugs : List String} {rows : List GameProblem} (j : ℕ)
    → Numbered i idx slugs rows
    → filter (problem_in_game j) rows ≡ (if i == j then rows else [])
filter-Numbered j none_left = ground arith
filter-Numbered j (numbered v ns) = ground (arith, filter-Numbered j ns)

pub problem_ids-Numbered :
    {i idx : ℕ} {slugs : List String} {rows : List GameProblem}
    → Numbered i idx slugs rows
    → problem_ids rows ≡ slugs
problem_ids-Numbered none_left = refl
problem_ids-Numbered (numbered v ns) = rw (problem_ids-Numbered ns)

pub length-Numbered :
    {i idx : ℕ} {slugs : List String} {rows : List GameProblem}
    → Numbered i idx slugs rows
    → length rows ≡ length slugs
length-Numbered none_left = refl
length-Numbered (numbered v ns) = ap suc (length-Numbered ns)

Numbered-IsSorted :
    {i idx : ℕ} {slugs : List String} {rows : List GameProblem}
    → Numbered i idx slugs rows
    → IsSorted (λ p. p.problem_index) rows
Numbered-IsSorted none_left = tt
Numbered-IsSorted (numbered v none_left) = tt
Numbered-IsSorted (numbered v (numbered {slug} u ns)) =
    (omega arith, Numbered-IsSorted (numbered {slug = slug} u ns))

pub order_by-Numbered :
    {i idx : ℕ} {slugs : List String} {rows : List GameProblem}
    → Numbered i idx slugs rows
    → order_by (λ p. p.problem_index) rows ≡ rows
order_by-Numbered {rows} ns = order_by-sorted (λ p. p.problem_index) rows (Numbered-IsSorted ns)

-- A lookup by game and index finds the row at that place.
pub find?-Numbered :
    {i idx : ℕ} {slugs : List String} {rows : List GameProblem} (n : ℕ)
    → Numbered i idx slugs rows
    → Option.map (λ p. p.problem_id) (find? (at_index i (idx + n)) rows) ≡ get_elem? slugs n
find?-Numbered n none_left = refl
find?-Numbered zero (numbered v ns) = ground arith
find?-Numbered {idx} (suc n) (numbered v ns) =
    let e : suc idx + n ≡ idx + suc n = omega arith in ground (arith, e, find?-Numbered n ns)

pub find?-filter :
    (i n : ℕ) (ps : List GameProblem)
    → find? (at_index i n) (filter (problem_in_game i) ps) ≡ find? (at_index i n) ps
find?-filter i n [] = refl
find?-filter i n (p ∷ ps) = ground (arith, find?-filter i n ps)

-- The problems of one game.
pub record IsListed (i : ℕ) (rows : List GameProblem) : Type 0 where
  pub slugs : List String
  pub order : Numbered i 0 slugs rows
  pub some_problem : 0 < length slugs
  pub few : length slugs ≤ max_game_problems

pub record HasProblems (d : Db) : Type 0 where
  pub listed : (i : ℕ) (g : Game) → find_game i d ≡ some g → IsListed i (problems_of i d)
  pub orphans : (i : ℕ) → find_game i d ≡ none → problems_of i d ≡ []

-- A change that leaves the problems alone, and the same games in place.
module _ (d e : Db) (same : e.game_problems ≡ d.game_problems) (v : HasProblems d) where
  kept-HasProblems :
      ((j : ℕ) (h : Game) → find_game j e ≡ some h → (g : Game) × (find_game j d ≡ some g))
      → ((j : ℕ) → find_game j e ≡ none → find_game j d ≡ none)
      → HasProblems e
  kept-HasProblems there gone = record {
    listed = λ j h f.
        let (g, f') = there j h f in
        subst (λ ps. IsListed j (filter (problem_in_game j) ps)) (sym same) (v.listed j g f');
    orphans = λ j f. rw same (v.orphans j (gone j f));
  }

updated-HasProblems :
    (f : Game → Game) (i : ℕ) (g : Game) (d : Db)
    → ((h : Game) → (f h).id ≡ h.id)
    → find_game i d ≡ some g
    → HasProblems d
    → HasProblems (update_game i f d)
updated-HasProblems f i g d same_id found v =
    kept-HasProblems d (update_game i f d) refl v
      (λ j h e. elim (update-found f i g d same_id found j h e) [
        | inl (hit, _) ↦ (g, subst (λ k. find_game k d ≡ some g) hit found)
        | inr old ↦ (h, old)
      ])
      (λ j e. ground (arith, find_game-update f i j d same_id))

create-HasProblems :
    (now : ℕ) (d : Db) (g : Game) (slugs : List String) (rows : List GameProblem)
    → IsConsistent d
    → IsNew now d g
    → Numbered d.next_game_id 0 slugs rows
    → 0 < length slugs
    → length slugs ≤ max_game_problems
    → HasProblems d
    → HasProblems (founded g rows d)
create-HasProblems now d g slugs rows c new ns some_problem few v =
    let free = v.orphans d.next_game_id (next_is_free now d c) in
    let law = λ (j : ℕ). filter-append (problem_in_game j) d.game_problems rows in
    let rows_of_new : problems_of d.next_game_id (founded g rows d) ≡ rows =
      ground (arith, law d.next_game_id, filter-Numbered d.next_game_id ns, free) in
    let rows_of_old : (j : ℕ) (h : Game)
        → find_game j d ≡ some h
        → problems_of j (founded g rows d) ≡ problems_of j d =
      λ j h old. ground (
        arith,
        law j,
        filter-Numbered j ns,
        (c.fair j h old).below,
        append-nil (problems_of j d),
      ) in
    record {
      listed = λ j h f. elim (founded-found now d g rows j h new f) [
        | inl (at, _) ↦
            subst (λ k. IsListed k (problems_of k (founded g rows d))) at
              (record {
                slugs = slugs;
                order = subst (Numbered d.next_game_id 0 slugs) (sym rows_of_new) ns;
                some_problem = some_problem;
                few = few;
              })
        | inr old ↦ subst (IsListed j) (sym (rows_of_old j h old)) (v.listed j h old)
      ];
      orphans = λ j f. ground (
        arith,
        law j,
        filter-Numbered j ns,
        v.orphans j,
        find_game-founded g rows j d,
        new.numbered,
      );
    }

delete-HasProblems : (d : Db) (i : ℕ) → HasProblems d → HasProblems (delete_game_rows i d)
delete-HasProblems d i v = record {
  listed = λ j h f.
      let there : find_game j d ≡ some h = ground (arith, find_game-delete i j d) in
      let same : problems_of j (delete_game_rows i d) ≡ problems_of j d =
        ground (arith, problems-delete i j d.game_problems, find_game-delete i j d) in
      subst (IsListed j) (sym same) (v.listed j h there);
  orphans = λ j f.
      ground (arith, problems-delete i j d.game_problems, v.orphans j, find_game-delete i j d);
}

-- The invariant of the games and their problems.
abbrev pub IsSound : Db → Type 0
IsSound d = IsConsistent d × HasProblems d

Change-HasProblems :
    {now : ℕ} {d e : Db} → Change now d e → IsConsistent d → HasProblems d → HasProblems e
Change-HasProblems (nothing q) c v = rw q v
Change-HasProblems {now} {d} (create g slugs rows new ns p few q) c v =
    rw q (create-HasProblems now d g slugs rows c new ns p few v)
Change-HasProblems {d} (join g i u _ _ _ q) c v =
    rw q (kept-HasProblems d _ refl v (λ j h f. (h, f)) (λ j f. f))
Change-HasProblems {d} (leave g i u _ _ _ q) c v =
    rw q (kept-HasProblems d _ refl v (λ j h f. (h, f)) (λ j f. f))
Change-HasProblems {now} {d} (start g i f _ _ q) c v =
    rw q (updated-HasProblems (started now) i g d (λ h. refl) f v)
Change-HasProblems {now} {d} (win g i u f _ _ q) c v =
    rw q (updated-HasProblems (completed u now) i g d (λ h. refl) f v)
Change-HasProblems {now} {d} (time_out g i f _ _ q) c v =
    rw q (updated-HasProblems (timed_out now) i g d (λ h. refl) f v)
Change-HasProblems {now} {d} (cancel g i f _ q) c v =
    rw q (updated-HasProblems (cancelled_at now) i g d (λ h. refl) f v)
Change-HasProblems {d} (advance i u _ q) c v =
    rw q (kept-HasProblems d _ refl v (λ j h f. (h, f)) (λ j f. f))
Change-HasProblems {d} (remove g i _ q) c v = rw q (delete-HasProblems d i v)

Changes-IsSound : {now : ℕ} {d e : Db} → Changes now d e → IsSound d → IsSound e
Changes-IsSound here v = v
Changes-IsSound (after cs c) v =
    let (c', p') = Changes-IsSound cs v in (Change-IsConsistent c c', Change-HasProblems c c' p')

-- From a consistent database in which it holds, and through any requests, whatever round trips
-- fail, this holds: the problems of each game are numbered 0, 1, … without a gap, there is at
-- least one and at most twenty, and a game that is not there has none.
pub serve-HasProblems :
    (rs : List (ℕ × Request)) (w : World)
    → IsConsistent w.db
    → HasProblems w.db
    → HasProblems (serve rs w).db
serve-HasProblems rs w c v =
    (serve_induction IsSound (λ now d e cs s. Changes-IsSound cs s) rs w (c, v)).1
