-- ===== src/Game/Outcomes.antt =====
-- What each method returns and writes when no round trip fails, on every branch.
use byte_battle.Prelude.{
  ℕ, suc, ◌<◌, ◌≡◌, ◌==◌, ltb, if◌then◌else◌, true, false, ◌||◌, not, some, any, find?, filter,
  length, arith,
}
use byte_battle.Db.Rows.{Game, GameParticipant, Uuid}
use byte_battle.Db.Exec.{World, ok, err, game_already_finished, transaction, statement, to_int32}
use byte_battle.Queries.Games.{
  find_game, max_serial, get_game_for_update, get_game_by_id, update_game, started, completed,
  cancelled_at, timed_out,
}
use byte_battle.Queries.Games as Games
use byte_battle.Queries.GameParticipants.{
  is_member, in_game, insert_participant, remove_participant, advance_participant,
  is_game_participant, add_game_participant, remove_game_participant, count_game_participants,
  advance_participant_problem,
}
use byte_battle.Queries.GameProblems.{count_game_problems, problem_in_game}
use byte_battle.Game.Members.{join_game, leave_game, is_active}
use byte_battle.Game.Progress.{
  start_game, claim_victory, handle_accepted_submission, winner_of, check_timeout, timeout_game,
  cancel_game,
}
use byte_battle.Game.Refine.Found.{find_game-id}
use byte_battle.Game.Tables.{any-memberships}
use byte_battle.Game.Verdicts.{
  IsReliable, exists, join_verdict, start_verdict, leave_verdict, cancel_verdict, timeout_verdict,
  is_ok,
}

module _ (id : ℕ) (u : Uuid) (w : World) (g : Game) (quiet : IsReliable w)
    (found : find_game (to_int32 id) w.db ≡ some g) where
  -- When no round trip fails, the game exists, the user exists and the sequence of participants is
  -- not exhausted, JoinGame returns join_verdict (the game has started; the user is in it already;
  -- otherwise the game) and adds the player if and only if that is a success.
  pub join_game-outcome :
      exists u w.db ≡ true
      → w.db.next_participant_id < max_serial
      → let verdict = join_verdict g (any (is_member (to_int32 id) u) w.db.game_participants) in
        ((join_game id u w).0 ≡ verdict)
        × ((join_game id u w).1.db
            ≡ (if is_ok verdict then insert_participant (to_int32 id) u w.db else w.db))
  unfolding join_game transaction statement get_game_for_update is_game_participant
      add_game_participant
  join_game-outcome user_known room = ground (
    arith,
    find_game-id (to_int32 id) w.db g,
    quiet w.calls,
    quiet (suc w.calls),
    quiet (suc (suc w.calls)),
    quiet (suc (suc (suc w.calls))),
    quiet (suc (suc (suc (suc w.calls)))),
  )

  -- When no round trip fails and the game exists, StartGame returns start_verdict (the game is not
  -- pending; the user is not its creator; fewer players than min_players; otherwise the started
  -- game) and writes the start, and nothing else, if and only if that is a success.
  start_game-outcome :
      let verdict =
        start_verdict g u w.now (length (filter (in_game (to_int32 id)) w.db.game_participants)) in
      ((start_game id u w).0 ≡ verdict)
      × ((start_game id u w).1.db
          ≡ (if is_ok verdict then update_game (to_int32 id) (started w.now) w.db else w.db))
  unfolding start_game transaction statement get_game_for_update count_game_participants
      Games.start_game
  start_game-outcome = ground (
    arith,
    find_game-id (to_int32 id) w.db g,
    quiet w.calls,
    quiet (suc w.calls),
    quiet (suc (suc w.calls)),
    quiet (suc (suc (suc w.calls))),
    quiet (suc (suc (suc (suc w.calls)))),
  )

  -- When no round trip fails and the game exists, CancelGame returns cancel_verdict (the user is not
  -- the creator; the game is finished or cancelled; otherwise the cancelled game) and writes the
  -- cancellation if and only if that is a success.
  cancel_game-outcome :
      ((cancel_game id u w).0 ≡ cancel_verdict g u w.now)
      × ((cancel_game id u w).1.db ≡ (
          if is_ok (cancel_verdict g u w.now)
          then update_game (to_int32 id) (cancelled_at w.now) w.db
          else w.db))
  unfolding cancel_game transaction statement get_game_for_update Games.cancel_game
  cancel_game-outcome = ground (
    arith,
    find_game-id (to_int32 id) w.db g,
    quiet w.calls,
    quiet (suc w.calls),
    quiet (suc (suc w.calls)),
    quiet (suc (suc (suc w.calls))),
  )

  -- When no round trip fails and the game exists, LeaveGame returns leave_verdict (the game is
  -- cancelled or has started; the user is the creator; the user is not in it; otherwise the game)
  -- and removes the player if and only if that is a success.
  leave_game-outcome :
      let verdict = leave_verdict g u (any (is_member (to_int32 id) u) w.db.game_participants) in
      ((leave_game id u w).0 ≡ verdict)
      × ((leave_game id u w).1.db
          ≡ (if is_ok verdict then remove_participant (to_int32 id) u w.db else w.db))
  unfolding leave_game transaction statement get_game_for_update remove_game_participant
  leave_game-outcome = ground (
    arith,
    find_game-id (to_int32 id) w.db g,
    any-memberships (to_int32 id) u w.db.game_participants,
    quiet w.calls,
    quiet (suc w.calls),
    quiet (suc (suc w.calls)),
    quiet (suc (suc (suc w.calls))),
  )

  -- When no round trip fails and the game exists, TimeoutGame with no request in between returns
  -- timeout_verdict (not a solo game; not the creator; not active; otherwise the finished game,
  -- without a winner) and writes it if and only if that is a success.
  timeout_game-outcome :
      let verdict = timeout_verdict g u w.now in
      ((timeout_game id u w).0 ≡ verdict)
      × ((timeout_game id u w).1.db
          ≡ (if is_ok verdict then update_game (to_int32 id) (timed_out w.now) w.db else w.db))
  unfolding timeout_game check_timeout statement get_game_by_id Games.timeout_game
  timeout_game-outcome = ground (
    arith,
    find_game-id (to_int32 id) w.db g,
    quiet w.calls,
    quiet (suc w.calls),
    quiet (suc (suc w.calls)),
  )

  -- When no round trip fails and the game exists, StartGame, CancelGame, LeaveGame and TimeoutGame, the
  -- last with no request in between, return their verdicts: by the status, the caller, the number of
  -- players, the membership and the solo flag, an error or the game as it is afterwards. Each writes
  -- its change, and nothing else, if and only if that is a success.
  pub lifecycle_outcome :
      let players = w.db.game_participants in
      let start = start_verdict g u w.now (length (filter (in_game (to_int32 id)) players)) in
      let cancel = cancel_verdict g u w.now in
      let leave = leave_verdict g u (any (is_member (to_int32 id) u) players) in
      let timeout = timeout_verdict g u w.now in
      (((start_game id u w).0 ≡ start)
        × ((start_game id u w).1.db
            ≡ (if is_ok start then update_game (to_int32 id) (started w.now) w.db else w.db)))
      × (((cancel_game id u w).0 ≡ cancel)
          × ((cancel_game id u w).1.db ≡ (
              if is_ok cancel then update_game (to_int32 id) (cancelled_at w.now) w.db else w.db)))
      × (((leave_game id u w).0 ≡ leave)
          × ((leave_game id u w).1.db
              ≡ (if is_ok leave then remove_participant (to_int32 id) u w.db else w.db)))
      × (((timeout_game id u w).0 ≡ timeout)
          × ((timeout_game id u w).1.db
              ≡ (if is_ok timeout then update_game (to_int32 id) (timed_out w.now) w.db else w.db)))
  lifecycle_outcome =
      (start_game-outcome, cancel_game-outcome, leave_game-outcome, timeout_game-outcome)

  -- When no round trip fails and the game and the winner's user exist, claimVictory finishes an
  -- active game with its winner, and refuses any other game and leaves the database as it was.
  pub claim_victory-outcome :
      exists (winner_of g u) w.db ≡ true
      → ((claim_victory id u w).0 ≡ (
          if is_active g.status
          then ok (completed (winner_of g u) w.now g, true)
          else err game_already_finished))
        × ((claim_victory id u w).1.db ≡ (
            if is_active g.status
            then update_game (to_int32 id) (completed (winner_of g u) w.now) w.db
            else w.db))
  unfolding claim_victory transaction statement get_game_for_update Games.complete_game
  claim_victory-outcome known = ground (
    arith,
    find_game-id (to_int32 id) w.db g,
    quiet w.calls,
    quiet (suc w.calls),
    quiet (suc (suc w.calls)),
    quiet (suc (suc (suc w.calls))),
  )

  -- When no round trip fails, the game, the player's row and the winner's user exist and the index
  -- fits int32, an accepted submission moves the player on by one problem whatever the game's
  -- status is. It finishes the game if and only if that was the last problem and the game is
  -- active; after the last problem of a game that is not active it fails as already finished.
  pub handle_accepted_submission-outcome :
      (p : GameParticipant)
      → find? (is_member (to_int32 id) u) w.db.game_participants ≡ some p
      → suc p.current_problem_index < max_serial
      → exists (winner_of g u) w.db ≡ true
      → let total = length (filter (problem_in_game (to_int32 id)) w.db.game_problems) in
        let moved = advance_participant (to_int32 id) u w.db in
        ((handle_accepted_submission id u w).0 ≡ (
          if total == 0 || ltb (suc p.current_problem_index) total
          then ok (g, false)
          else if is_active g.status
          then ok (completed (winner_of g u) w.now g, true)
          else err game_already_finished))
        × ((handle_accepted_submission id u w).1.db ≡ (
            if (total == 0 || ltb (suc p.current_problem_index) total) || not (is_active g.status)
            then moved
            else update_game (to_int32 id) (completed (winner_of g u) w.now) moved))
  unfolding handle_accepted_submission claim_victory transaction statement
      advance_participant_problem count_game_problems get_game_by_id get_game_for_update
      Games.complete_game
  handle_accepted_submission-outcome p row room known = ground (
    arith,
    find_game-id (to_int32 id) w.db g,
    quiet w.calls,
    quiet (suc w.calls),
    quiet (suc (suc w.calls)),
    quiet (suc (suc (suc w.calls))),
    quiet (suc (suc (suc (suc w.calls)))),
    quiet (suc (suc (suc (suc (suc w.calls))))),
  )
