-- ===== src/Game/Tables.antt =====
-- What the updates of the game tables do to the lookups in them.
use byte_battle.Prelude.{
  ℕ, ◌+◌, ◌≡◌, refl, ◌==◌, if◌then◌else◌, true, false, ◌&&◌, Option, some, none, List, [], ◌∷◌,
  ◌++◌, any, filter, length, update, delete, arith, find?-append_some, find?-append_none,
  find_key-update, find_key-delete, Option-cases, inl, inr, ◌⊎◌,
}
use mathlib.Core.Option
use byte_battle.Db.Rows.{Db, Game, GameParticipant, GameProblem, Uuid}
use byte_battle.Queries.Games.{find_game, game_is, update_game, delete_game_rows}
use byte_battle.Queries.GameParticipants.{is_member, in_game, advanced, new_participant}
use byte_battle.Queries.GameProblems.{problem_in_game}
use byte_battle.Game.Change.{founded, IsNew}

pub find_game-update :
    (f : Game → Game) (i j : ℕ) (d : Db)
    → ((g : Game) → (f g).id ≡ g.id)
    → find_game j (update_game i f d)
      ≡ (if i == j then Option.map f (find_game j d) else find_game j d)
find_game-update f i j d h = find_key-update (λ g. g.id) f i j d.games h

pub find_game-delete :
    (i j : ℕ) (d : Db)
    → find_game j (delete_game_rows i d) ≡ (if i == j then none else find_game j d)
find_game-delete i j d = find_key-delete (λ g. g.id) i j d.games

-- The row of a new game is found behind those that were there.
abbrev pub or_new : ℕ → Game → Option Game → Option Game
or_new j g (some h) = some h
or_new j g none = if g.id == j then some g else none

pub find_game-founded :
    (g : Game) (rows : List GameProblem) (j : ℕ) (d : Db)
    → find_game j (founded g rows d) ≡ or_new j g (find_game j d)
find_game-founded g rows j d = elim (Option-cases (find_game j d)) [
  | inl missing ↦ ground (arith, find?-append_none (game_is j) d.games (g ∷ []))
  | inr (h, f) ↦ ground (arith, find?-append_some (game_is j) d.games (g ∷ []) h)
]

-- The rows of one player of one game.
abbrev pub memberships : ℕ → Uuid → List GameParticipant → ℕ
memberships i u ps = length (filter (is_member i u) ps)

pub memberships-insert :
    (i j : ℕ) (u v : Uuid) (d : Db) (ps : List GameParticipant)
    → memberships j v (ps ++ (new_participant i u d ∷ []))
      ≡ memberships j v ps + (if i == j && u == v then 1 else 0)
memberships-insert i j u v d [] = ground arith
memberships-insert i j u v d (p ∷ ps) = ground (arith, memberships-insert i j u v d ps)

pub memberships-delete :
    (i j : ℕ) (u v : Uuid) (ps : List GameParticipant)
    → memberships j v (delete (is_member i u) ps)
      ≡ (if i == j && u == v then 0 else memberships j v ps)
memberships-delete i j u v [] = ground arith
memberships-delete i j u v (p ∷ ps) = ground (arith, memberships-delete i j u v ps)

pub memberships-delete_game :
    (i j : ℕ) (v : Uuid) (ps : List GameParticipant)
    → memberships j v (delete (in_game i) ps) ≡ (if i == j then 0 else memberships j v ps)
memberships-delete_game i j v [] = ground arith
memberships-delete_game i j v (p ∷ ps) = ground (arith, memberships-delete_game i j v ps)

pub memberships-advanced :
    (i j : ℕ) (u v : Uuid) (ps : List GameParticipant)
    → memberships j v (update (is_member i u) advanced ps) ≡ memberships j v ps
memberships-advanced i j u v [] = refl
memberships-advanced i j u v (p ∷ ps) = ground (arith, memberships-advanced i j u v ps)

-- A player has joined when there is a row.
pub any-memberships :
    (i : ℕ) (u : Uuid) (ps : List GameParticipant)
    → any (is_member i u) ps ≡ (if memberships i u ps == 0 then false else true)
any-memberships i u [] = refl
any-memberships i u (p ∷ ps) = ground (arith, any-memberships i u ps)

pub problems-delete :
    (i j : ℕ) (ps : List GameProblem)
    → filter (problem_in_game j) (delete (problem_in_game i) ps)
      ≡ (if i == j then [] else filter (problem_in_game j) ps)
problems-delete i j [] = ground arith
problems-delete i j (p ∷ ps) = ground (arith, problems-delete i j ps)

pub founded-found :
    (now : ℕ) (d : Db) (g : Game) (rows : List GameProblem) (j : ℕ) (h : Game)
    → IsNew now d g
    → find_game j (founded g rows d) ≡ some h
    → ((d.next_game_id ≡ j) × (g ≡ h)) ⊎ (find_game j d ≡ some h)
founded-found now d g rows j h new e = ground (arith, find_game-founded g rows j d, new.numbered)
