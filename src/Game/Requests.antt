-- ===== src/Game/Requests.antt =====
-- The requests that change games, and a server that handles them one after another.
use byte_battle.Prelude.{ℕ, Bool, Option, List, [], ◌∷◌, String}
use byte_battle.Db.Rows.{Db, Uuid}
use byte_battle.Db.Exec.{World}
use byte_battle.Game.Create.{create_game}
use byte_battle.Game.Members.{join_game, join_game_by_token, leave_game}
use byte_battle.Game.Progress.{
  start_game, complete_game_as_winner, complete_game, handle_accepted_submission, timeout_game,
  cancel_game, delete_game,
}
use byte_battle.Game.Change.{Changes}
use byte_battle.Game.Refine.Methods.{
  join_game-Changes, leave_game-Changes, start_game-Changes, cancel_game-Changes,
  finish_game-Changes,
}
use byte_battle.Game.Refine.Submission.{
  handle_accepted_submission-Changes, complete_game-Changes, join_game_by_token-Changes,
  timeout_game-Changes, delete_game-Changes,
}
use byte_battle.Game.Refine.Creation.{create_game-Changes}
use byte_battle.Game.Invariant.{IsConsistent, Changes-IsConsistent}

pub data Request : Type 0 where
  create : Uuid → List String → Bool → Bool → Option ℕ → Request
  join leave start win accept time_out cancel delete : ℕ → Uuid → Request
  join_by_token : Uuid → Uuid → Request
  complete : ℕ → Uuid → Uuid → Request

-- The world after a request, whatever it returns.
unfoldable pub handle : Request → World → World
handle (create u slugs is_public is_solo limit) w =
    (create_game u slugs is_public is_solo limit w).1
handle (join id u) w = (join_game id u w).1
handle (leave id u) w = (leave_game id u w).1
handle (start id u) w = (start_game id u w).1
handle (win id u) w = (complete_game_as_winner id u w).1
handle (accept id u) w = (handle_accepted_submission id u w).1
handle (time_out id u) w = (timeout_game id u w).1
handle (cancel id u) w = (cancel_game id u w).1
handle (delete id u) w = (delete_game id u w).1
handle (join_by_token token u) w = (join_game_by_token token u w).1
handle (complete id caller winner) w = (complete_game id caller winner w).1

-- Requests with the times at which they run.
unfoldable pub serve : List (ℕ × Request) → World → World
serve [] w = w
serve ((now, r) ∷ rs) w = serve rs (handle r (record w { now = now }))

-- Whatever round trips fail, a request does to the database what the transition system allows.
pub handle-Changes : (r : Request) (w : World) → Changes w.now w.db (handle r w).db
unfolding handle complete_game_as_winner
handle-Changes (create u slugs is_public is_solo limit) w =
    create_game-Changes u slugs is_public is_solo limit w
handle-Changes (join id u) w = join_game-Changes id u w
handle-Changes (leave id u) w = leave_game-Changes id u w
handle-Changes (start id u) w = start_game-Changes id u w
handle-Changes (win id u) w = finish_game-Changes id u w
handle-Changes (accept id u) w = handle_accepted_submission-Changes id u w
handle-Changes (time_out id u) w = timeout_game-Changes id u w
handle-Changes (cancel id u) w = cancel_game-Changes id u w
handle-Changes (delete id u) w = delete_game-Changes id u w
handle-Changes (join_by_token token u) w = join_game_by_token-Changes token u w
handle-Changes (complete id caller winner) w = complete_game-Changes id caller winner w

-- An invariant of the changes holds after any requests.
pub serve_induction :
    (P : Db → Type 0)
    → ((now : ℕ) (d e : Db) → Changes now d e → P d → P e)
    → (rs : List (ℕ × Request)) (w : World) → P w.db
    → P (serve rs w).db
unfolding serve
serve_induction P keep [] w h = h
serve_induction P keep ((now, r) ∷ rs) w h =
    let w' : World = record w { now = now } in
    serve_induction P keep rs (handle r w') (keep now w.db (handle r w').db (handle-Changes r w') h)

-- From a consistent database, whatever requests come and whatever round trips fail, nobody is
-- twice in a game, games that are not there have no players, the creator of each game is one of
-- its players, and only a finished game has a winner, who is one of its players.
pub serve-IsConsistent :
    (rs : List (ℕ × Request)) (w : World) → IsConsistent w.db → IsConsistent (serve rs w).db
serve-IsConsistent = serve_induction IsConsistent (λ now d e c v. Changes-IsConsistent c v)
