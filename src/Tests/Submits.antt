-- ===== src/Tests/Submits.antt =====
-- What the WebSocket handler tells of a refused submission, on the data.
use byte_battle.Prelude.{ℕ, ◌≡◌, ◌≢◌, refl, ap, sym, ◌∙◌, Bool, false, some, none, Option, []}
use byte_battle.Db.Exec.{Result, ok, err}
use byte_battle.Hub.{Hub}
use byte_battle.Submission.{Executor, SubmissionResult, State, submit_code}
use byte_battle.Server.Rooms.{ServerMessage, process_submit}
use byte_battle.Server.Privacy.{process_submit-private}
use byte_battle.Tests.Rooms.{two_clients}
use byte_battle.Tests.Slots.{allow, is_full, files, idle}

-- An executor without output.
abbrev silent : Executor
silent i r = (record { stdout = []; stderr = []; exit_code = 0 }, false)

abbrev marshal : ServerMessage → ℕ
marshal m = 500

abbrev is_accepted : Option (Result SubmissionResult × State ℕ) → Bool
is_accepted none = false
is_accepted (some (err e, st)) = false
is_accepted (some (ok s, st)) = s.accepted

test-is_accepted : is_accepted (submit_code 3 allow is_full silent files 2 3 "c" "go" idle) ≡ false
unfolding submit_code byte_battle.Execution.try_acquire_slot byte_battle.Execution.try_send
    byte_battle.Execution.load_or_store byte_battle.Execution.load
    byte_battle.Execution.release_slot byte_battle.Submission.submit_with_slot
    byte_battle.Execution.check_rate_limit byte_battle.Execution.allow_user
    byte_battle.Submission.get_current_problem byte_battle.Submission.current_row
    byte_battle.Game.Read.get_game byte_battle.Queries.Games.get_game_by_id
    byte_battle.Db.Exec.statement byte_battle.Execution.receive
    byte_battle.Game.Read.participant_problem_index
    byte_battle.Queries.GameParticipants.get_participant_problem_index
    byte_battle.Game.Read.get_game_problem_by_index
    byte_battle.Queries.GameProblems.get_game_problem_by_index byte_battle.Problem.Store.get_by_path
    byte_battle.Problem.Store.cached byte_battle.Submission.execute_against_problem
    byte_battle.Submission.run_tests byte_battle.Problem.Output.matches
    byte_battle.Problem.Output.normalize_output byte_battle.Problem.Output.trim_right
    byte_battle.Problem.Output.join byte_battle.Problem.Output.split
test-is_accepted = refl

process_submit-private_example :
    (st' : State ℕ) × (h' : Hub) × (process_submit marshal 3 allow is_full silent files 2 3 "c" "go"
        idle two_clients
      ≡ some (st', h'))
    × ((c : ℕ) → (two_clients.clients c).user_id ≢ 3 → h'.clients c ≡ two_clients.clients c)
process_submit-private_example =
    process_submit-private marshal 3 allow is_full silent files 2 3 "c" "go" idle two_clients
      (λ s st' h. ap is_accepted (sym h) ∙ test-is_accepted)
