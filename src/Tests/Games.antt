-- ===== src/Tests/Games.antt =====
-- GameService on the data.
use byte_battle.Prelude.{ℕ, ◌≡◌, refl, false, true, none, some, List, [], ◌∷◌, arith}
use byte_battle.ApiErr.{problem_not_found, creator_cannot_leave, validation}
use byte_battle.Db.Rows.{Game, finished, cancelled}
use byte_battle.Db.Exec.{World, ok, err, app, statement, transaction}
use byte_battle.Queries.Games.{find_game, started, completed}
use byte_battle.Queries.Games as Queries
use byte_battle.Queries.GameParticipants as Participants
use byte_battle.Queries.GameProblems as Problems
use byte_battle.Game.Create.{create_game, create_rows, add_problems, resolve_problem_version}
use byte_battle.Game.Requests.{
  Request, create, join, leave, start, accept, cancel, serve, handle, handle-Changes,
  serve-IsConsistent,
}
use byte_battle.Game.Progress.{
  check_timeout, start_game, cancel_game, timeout_game, claim_victory, handle_accepted_submission,
}
use byte_battle.Game.Change.{Changes}
use byte_battle.Game.Invariant.{IsConsistent}
use byte_battle.Game.Problems.{HasProblems, serve-HasProblems}
use byte_battle.Game.Status.{IsLater, serve-IsLater}
use byte_battle.Game.Members.{join_game, leave_game}
use byte_battle.Game.Verdicts.{IsReliable}
use byte_battle.Game.Outcomes.{
  join_game-outcome, lifecycle_outcome, handle_accepted_submission-outcome,
}
use byte_battle.Queries.Games.{cancelled_at, timed_out, update_game}
use byte_battle.Queries.GameParticipants.{
  insert_participant, remove_participant, advance_participant,
}
use byte_battle.Game.Refine.Creation.{create_game-err}
use byte_battle.Game.Races.{timeout-overwrites-cancel}
use byte_battle.Tests.Data.{fresh, busy, waiting, played, solo, slugs}

-- Two players meet in a game of two problems, and the second player solves both.
abbrev match : List (ℕ × Request)
match =
    (100, create 1 slugs true false none)
    ∷ (110, join 1 2)
    ∷ (120, start 1 1)
    ∷ (130, accept 1 2)
    ∷ (140, leave 1 2)
    ∷ (150, accept 1 2)
    ∷ (160, cancel 1 1)
    ∷ []

pub fresh-IsConsistent : IsConsistent fresh.db
fresh-IsConsistent = record {
  once = λ i u. omega arith;
  orphans = λ i u e. refl;
  fair = λ i g e. absurd (ground arith);
}

pub fresh-HasProblems : HasProblems fresh.db
fresh-HasProblems = record { listed = λ i g e. absurd (ground arith); orphans = λ i e. refl }

serve-IsConsistent_example : IsConsistent (serve match fresh).db
serve-IsConsistent_example = serve-IsConsistent match fresh fresh-IsConsistent

serve-HasProblems_example : HasProblems (serve match fresh).db
serve-HasProblems_example = serve-HasProblems match fresh fresh-IsConsistent fresh-HasProblems

-- Game 2 as player 3 leaves it.
abbrev won : Game
won = completed 3 150 played

abbrev end_of_game : List (ℕ × Request)
end_of_game = (150, accept 2 3) ∷ (160, cancel 2 1) ∷ []

test-end_of_game : find_game 2 (serve end_of_game busy).db ≡ some won
unfolding serve handle handle_accepted_submission claim_victory cancel_game transaction statement
    Participants.advance_participant_problem Problems.count_game_problems
    Queries.get_game_for_update Queries.complete_game
test-end_of_game = refl

serve-IsLater_example : (g : Game) × (find_game 2 busy.db ≡ some g) × IsLater g won
serve-IsLater_example = serve-IsLater end_of_game busy 2 won (omega arith) test-end_of_game

handle-Changes_example : Changes busy.now busy.db (handle (accept 2 3) busy).db
handle-Changes_example = handle-Changes (accept 2 3) busy

busy-IsReliable : IsReliable busy
busy-IsReliable n = refl

join_game-outcome_example :
    ((join_game 1 3 busy).0 ≡ ok waiting)
    × ((join_game 1 3 busy).1.db ≡ insert_participant 1 3 busy.db)
join_game-outcome_example =
    join_game-outcome 1 3 busy waiting busy-IsReliable refl refl (omega arith)

-- User 1 starts the game that waits, cancels it, and may neither leave it nor end it as a solo game.
lifecycle_outcome_example :
    (((start_game 1 1 busy).0 ≡ ok (started 100 waiting))
      × ((start_game 1 1 busy).1.db ≡ update_game 1 (started 100) busy.db))
    × (((cancel_game 1 1 busy).0 ≡ ok (cancelled_at 100 waiting))
        × ((cancel_game 1 1 busy).1.db ≡ update_game 1 (cancelled_at 100) busy.db))
    × (((leave_game 1 1 busy).0 ≡ err (app creator_cannot_leave))
        × ((leave_game 1 1 busy).1.db ≡ busy.db))
    × (((timeout_game 1 1 busy).0 ≡ err (app validation))
        × ((timeout_game 1 1 busy).1.db ≡ busy.db))
lifecycle_outcome_example = lifecycle_outcome 1 1 busy waiting busy-IsReliable refl

handle_accepted_submission-outcome_example :
    ((handle_accepted_submission 2 3 busy).0 ≡ ok (completed 3 100 played, true))
    × ((handle_accepted_submission 2 3 busy).1.db
        ≡ update_game 2 (completed 3 100) (advance_participant 2 3 busy.db))
handle_accepted_submission-outcome_example =
    handle_accepted_submission-outcome 2 3 busy played busy-IsReliable refl _ refl (omega arith)
      refl

-- User 2 may not use the problem of user 1.
test-refused : (create_game 2 slugs true false none fresh).0 ≡ err (app problem_not_found)
unfolding create_game transaction create_rows Queries.create_game statement add_problems
    resolve_problem_version byte_battle.Queries.Problems.get_problem_catalog_by_slug
    Problems.add_game_problem
test-refused = refl

create_game-err_example : (create_game 2 slugs true false none fresh).1.db ≡ fresh.db
create_game-err_example =
    create_game-err 2 slugs true false none fresh (app problem_not_found) test-refused

-- Game 3 is cancelled while it times out.
abbrev called_off : World
called_off = (cancel_game 3 1 (check_timeout 3 1 busy).1).1

test-check : (check_timeout 3 1 busy).0 ≡ ok solo
unfolding check_timeout Queries.get_game_by_id statement
test-check = refl

test-cancel : (cancel_game 3 1 (check_timeout 3 1 busy).1).0 ≡ ok (cancelled_at 100 solo)
unfolding cancel_game transaction check_timeout Queries.get_game_by_id statement
    Queries.get_game_for_update Queries.cancel_game
test-cancel = refl

test-timeout : (Queries.timeout_game 3 called_off).0 ≡ ok (timed_out 100 (cancelled_at 100 solo))
unfolding Queries.timeout_game statement cancel_game transaction check_timeout
    Queries.get_game_by_id Queries.get_game_for_update Queries.cancel_game
test-timeout = refl

timeout-overwrites-cancel_example :
    ((h : Game) × (find_game 3 called_off.db ≡ some h) × (h.status ≡ cancelled))
    × ((h : Game) × (find_game 3 (Queries.timeout_game 3 called_off).1.db ≡ some h)
        × (h.status ≡ finished))
timeout-overwrites-cancel_example =
    timeout-overwrites-cancel 3 1 1 busy solo (cancelled_at 100 solo)
      (timed_out 100 (cancelled_at 100 solo)) test-check test-cancel test-timeout
