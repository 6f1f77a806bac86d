-- ===== src/Game/Refine/Creation.antt =====
-- CreateGame makes a new game with its problems and its creator, or changes nothing.
use byte_battle.Prelude.{
  ℕ, suc, ◌+◌, ◌≤◌, ◌<◌, ◌≡◌, refl, sym, ◌∙◌, subst, ◌≢◌, ap, ◌⊎◌, inl, inr, Bool, false, Option,
  List, [], ◌∷◌, ◌++◌, any, length, arith, String, Bool-cases,
}
use byte_battle.Db.Rows.{Db, Game, GameProblem, Uuid}
use byte_battle.Db.Exec.{
  World, Result, ok, err, Error, transaction, transaction-err, statement, to_int32, ◌>>◌, >>=-eq-ok,
  next_call, Result-cases, pure, transaction-ok,
}
use byte_battle.Queries.Games.{insert_game, CreateGameParams, new_game, token_is}
use byte_battle.Queries.Games as Games
use byte_battle.Queries.GameParticipants.{insert_participant, add_game_participant}
use byte_battle.Queries.GameProblems.{insert_game_problem, add_game_problem}
use byte_battle.Queries.Problems.{get_problem_catalog_by_slug}
use native.Mathlib.Decide.{dec_lt, dec_le}
use byte_battle.Game.Create.{
  is_empty, resolve_problem_version, add_problems, create_rows, create_game, max_game_problems,
}
use byte_battle.Game.Change.{
  Changes, once, nothing, create, Numbered, none_left, numbered, IsNew, founded,
}
use mathlib.Core.List.{append-nil, append_assoc}

-- The world after a call: same time, and a database with more problems.
abbrev Same : World → World → Type 0
Same w w' = (w'.db ≡ w.db) × (w'.now ≡ w.now)

resolve_problem_version-Same :
    (u : Uuid) (slug : String) (w : World) → Same w (resolve_problem_version u slug w).1
unfolding resolve_problem_version get_problem_catalog_by_slug statement
resolve_problem_version-Same u slug w = ground arith

add_game_problem-ok :
    (p : GameProblem) (w : World)
    → (add_game_problem p w).0 ≡ ok tt
    → ((add_game_problem p w).1.db ≡ insert_game_problem p w.db)
      × ((add_game_problem p w).1.now ≡ w.now)
unfolding add_game_problem statement
add_game_problem-ok p w h = ground arith

abbrev problem_row : ℕ → ℕ → String → ℕ → GameProblem
problem_row i idx slug version = record {
  game_id = i;
  problem_index = to_int32 idx;
  problem_id = slug;
  problem_version_id = version;
}

abbrev with_problems : List GameProblem → Db → Db
with_problems rows d = record d { game_problems = d.game_problems ++ rows }

with_problems-cons :
    (p : GameProblem) (rows : List GameProblem) (d0 d1 d2 : Db)
    → d1 ≡ d0
    → d2 ≡ insert_game_problem p d1
    → with_problems rows d2 ≡ with_problems (p ∷ rows) d0
with_problems-cons p rows d0 d1 d2 e f = rw (f, e) (rw append_assoc)

problem_row-Numbered :
    (i idx version : ℕ) (slug : String) (slugs : List String) (rows : List GameProblem)
    → idx < max_game_problems
    → Numbered i (suc idx) slugs rows
    → Numbered i idx (slug ∷ slugs) (problem_row i idx slug version ∷ rows)
problem_row-Numbered i idx version slug slugs rows few ns =
    let e : to_int32 idx ≡ idx = omega arith in rw e (numbered version ns)

pub add_problems-ok :
    (u : Uuid) (i idx : ℕ) (slugs : List String) (w : World)
    → idx + length slugs ≤ max_game_problems
    → (add_problems u i idx slugs w).0 ≡ ok tt
    → (rows : List GameProblem) × Numbered i idx slugs rows
      × ((add_problems u i idx slugs w).1.db ≡ with_problems rows w.db)
      × ((add_problems u i idx slugs w).1.now ≡ w.now)
unfolding add_problems
add_problems-ok u i idx [] w few h = ([], none_left, simp append-nil, refl)
add_problems-ok u i idx (slug ∷ slugs) w few h =
    let rest = add_problems u i (suc idx) slugs in
    let (version, _, e) =
      >>=-eq-ok (resolve_problem_version u slug)
        (λ v. add_game_problem (problem_row i idx slug v) >> rest) w tt h in
    let w1 = (resolve_problem_version u slug w).1 in
    let p = problem_row i idx slug version in
    let (_, added, e') =
      >>=-eq-ok (add_game_problem p) (λ _. rest) w1 tt (ap (λ x. x.0) (sym e) ∙ h) in
    let w2 = (add_game_problem p w1).1 in
    let h' : (rest w2).0 ≡ ok tt = ap (λ x. x.0) (sym (e ∙ e')) ∙ h in
    let few' : suc idx + length slugs ≤ max_game_problems = omega (arith, few) in
    let (rows, ns, d, n) = add_problems-ok u i (suc idx) slugs w2 few' h' in
    let same = resolve_problem_version-Same u slug w in
    let (inserted, n') = add_game_problem-ok p w1 added in
    (
      p ∷ rows,
      problem_row-Numbered i idx version slug slugs rows (omega (arith, few)) ns,
      ap (λ x. x.1.db) (e ∙ e') ∙ d ∙ with_problems-cons p rows w.db w1.db w2.db same.0 inserted,
      ap (λ x. x.1.now) (e ∙ e') ∙ n ∙ n' ∙ same.1,
    )

Games-create_game-ok :
    (arg : CreateGameParams) (w : World) (g : Game)
    → (Games.create_game arg w).0 ≡ ok g
    → (g ≡ new_game arg w)
      × (any (token_is g.invite_token) w.db.games ≡ false)
      × ((Games.create_game arg w).1.db ≡ insert_game g w.db)
      × ((Games.create_game arg w).1.now ≡ w.now)
unfolding Games.create_game statement
Games-create_game-ok arg w g h = ground arith

add_game_participant-ok :
    (i : ℕ) (u : Uuid) (w : World)
    → (add_game_participant i u w).0 ≡ ok tt
    → (add_game_participant i u w).1.db ≡ insert_participant i u w.db
unfolding add_game_participant statement
add_game_participant-ok i u w h = ground arith

new_game-IsNew :
    (arg : CreateGameParams) (w : World) (g : Game)
    → g ≡ new_game arg w
    → any (token_is g.invite_token) w.db.games ≡ false
    → IsNew w.now w.db g
new_game-IsNew arg w g e fresh = record {
  numbered = ap (λ x. x.id) e;
  waits = ap (λ x. x.status) e;
  no_winner = ap (λ x. x.winner_id) e;
  fresh_token = fresh;
}

-- What CreateGame has made when it succeeds.
pub record IsCreated (arg : CreateGameParams) (slugs : List String) (w : World) (g : Game) (d : Db)
    : Type 0 where
  pub rows : List GameProblem
  pub game : g ≡ new_game arg w
  pub fresh_token : any (token_is g.invite_token) w.db.games ≡ false
  pub numbered : Numbered w.db.next_game_id 0 slugs rows
  pub tables : d ≡ founded g rows w.db

result-is : (a b : Game) → ok a ≡ ok b → a ≡ b
result-is a b h = cc

founded-eq :
    (arg : CreateGameParams) (w : World) (game g : Game) (rows : List GameProblem) (d2 d1 : Db)
    → game ≡ g
    → game ≡ new_game arg w
    → d2 ≡ with_problems rows d1
    → d1 ≡ insert_game game w.db
    → insert_participant game.id arg.creator_id d2 ≡ founded g rows w.db
founded-eq arg w game g rows d2 d1 is_game is_new e f = rw (e, f, ← is_game) (rw is_new)

create_rows-ok :
    (arg : CreateGameParams) (slugs : List String) (w : World) (g : Game)
    → length slugs ≤ max_game_problems
    → (create_rows arg slugs w).0 ≡ ok g
    → IsCreated arg slugs w g (create_rows arg slugs w).1.db
unfolding create_rows
create_rows-ok arg slugs w g few h =
    let u = arg.creator_id in
    let (game, made, e) =
      >>=-eq-ok (Games.create_game arg)
        (λ r. add_problems u r.id 0 slugs >> (add_game_participant r.id u >> pure r)) w g h in
    let w1 = (Games.create_game arg w).1 in
    let (_, added, e') =
      >>=-eq-ok (add_problems u game.id 0 slugs) (λ _. add_game_participant game.id u >> pure game)
        w1 g (ap (λ x. x.0) (sym e) ∙ h) in
    let w2 = (add_problems u game.id 0 slugs w1).1 in
    let (_, joined, e'') =
      >>=-eq-ok (add_game_participant game.id u) (λ _. pure game) w2 g
        (ap (λ x. x.0) (sym (e ∙ e')) ∙ h) in
    let (is_new, fresh, inserted, _) = Games-create_game-ok arg w game made in
    let (rows, ns, d, _) = add_problems-ok u game.id 0 slugs w1 (omega (arith, few)) added in
    let is_game : game ≡ g = result-is game g (ap (λ x. x.0) (sym (e ∙ e' ∙ e'')) ∙ h) in
    let last = add_game_participant-ok game.id u w2 joined in
    record {
      rows = rows;
      game = sym is_game ∙ is_new;
      fresh_token = subst (λ x. any (token_is x.invite_token) w.db.games ≡ false) is_game fresh;
      numbered = subst (λ n. Numbered n 0 slugs rows) (ap (λ x. x.id) is_new) ns;
      tables =
          ap (λ x. x.1.db) (e ∙ e' ∙ e'')
          ∙ last
          ∙ founded-eq arg w game g rows w2.db w1.db is_game is_new d inserted;
    }

module _ (creator : Uuid) (slugs : List String) (is_public is_solo : Bool) (time_limit : Option ℕ)
    (w : World) where
  abbrev params : CreateGameParams
  params = record {
    creator_id = creator;
    is_public = is_public;
    is_solo = is_solo;
    time_limit_minutes = time_limit;
  }

  abbrev created : Result Game × World
  created = create_game creator slugs is_public is_solo time_limit w

  -- The tests on the slugs come first, and the transaction runs only if they pass.
  create_game-cases :
      ((created.1.db ≡ w.db) × ((g : Game) → created.0 ≢ ok g))
      ⊎ ((0 < length slugs)
          × (length slugs ≤ max_game_problems)
          × (any is_empty slugs ≡ false)
          × (created ≡ transaction (create_rows params slugs) w))
  unfolding create_game
  create_game-cases = elim (Bool-cases (any is_empty slugs)) [
    | inl bad ↦ inl (ground arith, λ g h. ground arith)
    | inr good ↦ elim (dec_lt 0 (length slugs)) [
      | no few ↦ inl (ground arith, λ g h. ground arith)
      | yes some_slugs ↦ elim (dec_le (length slugs) max_game_problems) [
        | no many ↦ inl (ground arith, λ g h. ground arith)
        | yes fits ↦ inr (some_slugs, fits, good, ground arith)
      ]
    ]
  ]

  -- When CreateGame succeeds, there were one to twenty slugs, none of them empty, and the database
  -- is as before but for the new game, one row for each slug, numbered from 0, and the creator as
  -- the game's player; the invite token was not in use.
  pub create_game-ok :
      (g : Game)
      → created.0 ≡ ok g
      → (0 < length slugs)
        × (length slugs ≤ max_game_problems)
        × (any is_empty slugs ≡ false)
        × IsCreated params slugs (next_call w) g created.1.db
  create_game-ok g h = elim create_game-cases [
    | inl (_, failed) ↦ absurd (failed g h)
    | inr (some_slugs, fits, good, e) ↦
        let (h', kept) =
          transaction-ok (create_rows params slugs) w g (ap (λ x. x.0) (sym e) ∙ h) in
        let made = create_rows-ok params slugs (next_call w) g fits h' in
        (
          some_slugs,
          fits,
          good,
          subst (IsCreated params slugs (next_call w) g) (sym (ap (λ x. x.1.db) e ∙ kept)) made,
        )
  ]

  -- When CreateGame returns an error, from its tests or from any round trip, the database is as it
  -- was.
  pub create_game-err : (e : Error) → created.0 ≡ err e → created.1.db ≡ w.db
  create_game-err x h = elim create_game-cases [
    | inl (same, _) ↦ same
    | inr (_, _, _, e) ↦
        ap (λ r. r.1.db) e
        ∙ transaction-err (create_rows params slugs) w x (ap (λ r. r.0) (sym e) ∙ h)
  ]

  pub create_game-Changes : Changes w.now w.db created.1.db
  create_game-Changes = elim (Result-cases created.0) [
    | inr (e, h) ↦ once (nothing (create_game-err e h))
    | inl (g, h) ↦
        let (some_slugs, fits, _, made) = create_game-ok g h in
        once (
          create g slugs made.rows
            (new_game-IsNew params (next_call w) g made.game made.fresh_token) made.numbered
            some_slugs fits made.tables)
  ]
