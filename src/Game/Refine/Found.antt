-- ===== src/Game/Refine/Found.antt =====
-- Helpers: the game that a method finds, and transactions that refine `Change`.
use byte_battle.Prelude.{ℕ, ◌≡◌, refl, inl, inr, Option, some, none, arith, find?-holds}
use byte_battle.Db.Rows.{Db, Game}
use byte_battle.Db.Exec.{World, Action, ok, transaction, transaction-err, Result-cases}
use byte_battle.Queries.Games.{find_game, game_is}
use byte_battle.Game.Change.{Changes, once, nothing}

pub find_game-id : (i : ℕ) (d : Db) (g : Game) → find_game i d ≡ some g → g.id ≡ i
find_game-id i d g h = ground (arith, find?-holds (game_is i) d.games g h)

-- What a method that succeeds has found.
pub found_by : {A : Type 0} (o : Option A) → ¬ (o ≡ none) → (a : A) × (o ≡ some a)
found_by none h = absurd (h refl)
found_by (some a) h = (a, refl)

-- A transaction refines `Change` if it does so whenever it succeeds.
pub transaction-Changes :
    {A : Type 0} (m : Action A) (w : World)
    → ((r : A) → (transaction m w).0 ≡ ok r → Changes w.now w.db (transaction m w).1.db)
    → Changes w.now w.db (transaction m w).1.db
transaction-Changes m w succeeds = elim (Result-cases (transaction m w).0) [
  | inl (r, h) ↦ succeeds r h
  | inr (e, h) ↦ once (nothing (transaction-err m w e h))
]
