-- ===== src/Game/Founding.antt =====
-- What a client sees of a game after CreateGame has succeeded.
use byte_battle.Prelude.{
  ℕ, ◌+◌, ◌≡◌, refl, sym, ◌∙◌, ap, subst, Bool, false, Option, some, none, List, [], ◌∷◌, find?,
  any, get_elem?, arith, String, filter-append, find?-append_none,
}
use mathlib.Core.Option
use byte_battle.ApiErr.{game_not_found}
use byte_battle.Db.Rows.{Game, GameProblem, Uuid, pending}
use byte_battle.Db.Exec.{World, Result, ok, err, app, statement, next_call}
use byte_battle.Queries.Games.{CreateGameParams, token_is, get_game_by_invite_token}
use byte_battle.Queries.GameProblems as GameProblems
use byte_battle.Queries.GameProblems.{problem_in_game, at_index}
use byte_battle.Game.Create.{create_game}
use byte_battle.Game.Members.{get_game_by_token}
use byte_battle.Game.Read.{get_game_problem_ids, get_game_problem_id_by_index}
use byte_battle.Game.Change.{founded}
use byte_battle.Game.Refine.Creation.{IsCreated, create_game-ok}
use byte_battle.Game.Invariant.{IsConsistent, next_is_free}
use byte_battle.Game.Problems.{
  HasProblems, problems_of, filter-Numbered, problem_ids-Numbered, order_by-Numbered,
  find?-Numbered, find?-filter,
}

find?-none {ℓ} : {A : Type ℓ} (p : A → Bool) (xs : List A) → any p xs ≡ false → find? p xs ≡ none
find?-none p [] h = refl
find?-none p (x ∷ xs) h = ground (arith, find?-none p xs)

abbrev found_or_missing : Option String → Result String
found_or_missing none = err (app game_not_found)
found_or_missing (some slug) = ok slug

module _ (creator : Uuid) (slugs : List String) (is_public is_solo : Bool) (time_limit : Option ℕ)
    (w : World) (g : Game)
    (created : (create_game creator slugs is_public is_solo time_limit w).0 ≡ ok g) (w' : World)
    (later : w'.db ≡ (create_game creator slugs is_public is_solo time_limit w).1.db)
    (up : w'.fails w'.calls ≡ false) where
  abbrev arg : CreateGameParams
  arg = record {
    creator_id = creator;
    is_public = is_public;
    is_solo = is_solo;
    time_limit_minutes = time_limit;
  }

  made : IsCreated arg slugs (next_call w) g w'.db
  made =
      subst (IsCreated arg slugs (next_call w) g) (sym later)
        (create_game-ok creator slugs is_public is_solo time_limit w g created).3

  id_of_new : g.id ≡ w.db.next_game_id
  id_of_new = ap (λ x. x.id) made.game

  -- The rows that the new game has.
  rows_of_new : IsConsistent w.db → HasProblems w.db → problems_of g.id w'.db ≡ made.rows
  rows_of_new c v =
      let none_before = v.orphans w.db.next_game_id (next_is_free w.now w.db c) in
      let law = filter-append (problem_in_game w.db.next_game_id) w.db.game_problems made.rows in
      let e : problems_of w.db.next_game_id (founded g made.rows w.db) ≡ made.rows =
        ground (arith, law, none_before, filter-Numbered w.db.next_game_id made.numbered) in
      ap (λ d. problems_of g.id d) made.tables
      ∙ ap (λ i. problems_of i (founded g made.rows w.db)) id_of_new
      ∙ e

  -- When CreateGame has succeeded on a consistent database with well-numbered problems, and the
  -- next round trip does not fail on the database that it left, reading the problems of the new
  -- game gives the slugs that the creator named, in that order.
  pub create_game-problem_ids :
      IsConsistent w.db → HasProblems w.db → (get_game_problem_ids g.id w').0 ≡ ok slugs
  unfolding get_game_problem_ids GameProblems.get_game_problem_ids statement
  create_game-problem_ids c v = rw up (
      rw (rows_of_new c v)
        (rw (order_by-Numbered made.numbered) (rw (problem_ids-Numbered made.numbered))))

  -- The row at an index, among all rows, is the row at that place of the new game.
  slug_at :
      IsConsistent w.db
      → HasProblems w.db
      → (n : ℕ)
      → Option.map (λ p. p.problem_id) (find? (at_index g.id n) w'.db.game_problems)
        ≡ get_elem? slugs n
  slug_at c v n =
      let e = find?-Numbered n made.numbered in
      let zero_add : 0 + n ≡ n = omega arith in
      ap (Option.map (λ p. p.problem_id)) (
        sym (find?-filter g.id n w'.db.game_problems)
        ∙ ap (find? (at_index g.id n)) (rows_of_new c v)
        ∙ ap (λ i. find? (at_index i n) made.rows) id_of_new
        ∙ ap (λ k. find? (at_index w.db.next_game_id k) made.rows) (sym zero_add))
      ∙ e

  found_by_index :
      (n : ℕ) (o : Option GameProblem)
      → find? (at_index g.id n) w'.db.game_problems ≡ o
      → (get_game_problem_id_by_index g.id n w').0
        ≡ found_or_missing (Option.map (λ p. p.problem_id) o)
  unfolding get_game_problem_id_by_index GameProblems.get_game_problem_id_by_index statement
  found_by_index n none e = ground arith
  found_by_index n (some p) e = ground arith

  -- When CreateGame has succeeded on a consistent database with well-numbered problems, and the
  -- next round trip does not fail on the database that it left, the problem at index n of the new
  -- game is the n-th slug that the creator named, and past the last slug the method answers
  -- game_not_found.
  pub create_game-problem_at :
      IsConsistent w.db
      → HasProblems w.db
      → (n : ℕ) → (get_game_problem_id_by_index g.id n w').0 ≡ found_or_missing (get_elem? slugs n)
  create_game-problem_at c v n = found_by_index n _ refl ∙ ap found_or_missing (slug_at c v n)

  -- When CreateGame has succeeded, and the next round trip does not fail on the database that it
  -- left, the invite token of the new game leads to that game, which is pending, belongs to its
  -- creator, has no winner and has the solo flag asked for.
  create_game-by_token :
      ((get_game_by_token g.invite_token w').0 ≡ ok g)
      × (g.status ≡ pending)
      × (g.creator_id ≡ creator)
      × (g.winner_id ≡ none)
      × (g.is_solo ≡ is_solo)
  unfolding get_game_by_token get_game_by_invite_token statement
  create_game-by_token =
      let law =
        find?-append_none (token_is g.invite_token) w.db.games (g ∷ [])
          (find?-none (token_is g.invite_token) w.db.games made.fresh_token) in
      let e : find? (token_is g.invite_token) w'.db.games ≡ some g =
        ap (λ d. find? (token_is g.invite_token) d.games) made.tables ∙ law ∙ ground arith in
      (
        rw up (rw e),
        ap (λ x. x.status) made.game,
        ap (λ x. x.creator_id) made.game,
        ap (λ x. x.winner_id) made.game,
        ap (λ x. x.is_solo) made.game,
      )
