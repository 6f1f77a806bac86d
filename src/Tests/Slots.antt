-- ===== src/Tests/Slots.antt =====
-- Slots, submissions and the handlers on games, on the data.
use byte_battle.Prelude.{
  ℕ, ◌+◌, ◌-◌, ◌≡◌, refl, sym, subst, ◌==◌, ltb, Bool, false, true, none, some, Option, List, [],
  ◌∷◌, String, ◌⊎◌, inl, inr,
}
use byte_battle.ApiErr.{execution_in_progress}
use byte_battle.Db.Rows.{active}
use byte_battle.Db.Exec.{World, Result, ok, err, app}
use byte_battle.Execution.{SlotKey, execute, submit, Slots, ExecutionService, try_acquire_slot}
use byte_battle.Execution.Schedule.{go, sweep, holding, releasing, outside, run, start, step, Step}
use byte_battle.Execution.Exclusion.{moves, run-excludes, run-releases}
use byte_battle.Problem.{TestCase, Problem}
use byte_battle.Prelude.Int.{pos}
use byte_battle.Submission.{
  Executor, SubmissionResult, State, submit_code, submit_key, execute_against_problem,
}
use byte_battle.Submission.Verdict.{Judgement, execute_against_problem-Verdict}
use byte_battle.Submission.Outcome.{Earned, submit_code-returns, submit_code-Earned}
use byte_battle.Server.Games.{ApiGame}
use byte_battle.Server.Secrecy.{get, respond, MayInvite, respond-MayInvite}
use byte_battle.Tests.Data.{busy, fresh}

abbrev key : SlotKey
key = record { user_id = 7; kind = submit }

-- Goroutines 0 and 1 ask for one slot; 0 gets it.
abbrev both : List (ℕ × SlotKey)
both = (0, key) ∷ (1, key) ∷ (0, key) ∷ (1, key) ∷ []

run-excludes_example : ◌≡◌ {A = ℕ} 0 0
unfolding run step byte_battle.Execution.Schedule.look byte_battle.Execution.Schedule.send
    byte_battle.Execution.try_send byte_battle.Execution.load_or_store byte_battle.Execution.load
run-excludes_example = run-excludes both 0 0 key 0 0 refl refl

abbrev one_turn : List (ℕ × SlotKey)
one_turn = (0, key) ∷ (0, key) ∷ (0, key) ∷ []

run-releases_example : (step (go 0 key) (run (moves one_turn) start)).places 0 ≡ outside
unfolding run step byte_battle.Execution.Schedule.look byte_battle.Execution.Schedule.send
    byte_battle.Execution.try_send byte_battle.Execution.load_or_store byte_battle.Execution.load
    byte_battle.Execution.Schedule.find
run-releases_example = run-releases one_turn 0 key key 0 refl

-- A sweep between a goroutine's LoadOrStore and its send lets two goroutines hold one slot.
abbrev swept : List Step
swept = go 0 key ∷ sweep key ∷ go 1 key ∷ go 0 key ∷ go 1 key ∷ []

test-two_holders :
    ((run swept start).places 0 ≡ holding key 0) × ((run swept start).places 1 ≡ holding key 1)
unfolding run step byte_battle.Execution.Schedule.look byte_battle.Execution.Schedule.send
    byte_battle.Execution.try_send byte_battle.Execution.load_or_store byte_battle.Execution.load
test-two_holders = (refl, refl)

-- A bucket of three tokens that is never filled.
abbrev pub allow : ℕ → ℕ → Bool × ℕ
allow now n = (ltb 0 n, n - 1)

abbrev pub is_full : ℕ → ℕ → Bool
is_full now n = n == 3

-- An executor that echoes the input, and a problem that asks for that.
abbrev echo : Executor
echo i r = (record { stdout = r.stdin; stderr = []; exit_code = 0 }, false)

abbrev case_of : ℕ → ℕ → TestCase
case_of n m = record { name = "t"; input = n ∷ []; expected = m ∷ 32 ∷ 10 ∷ [] }

abbrev echo_problem : Problem
echo_problem = record {
  slug = "sort";
  statement = "";
  manifest = record {
    title = 97 ∷ [];
    difficulty = "";
    time_limit_ms = pos 1000;
    memory_limit_mb = pos 64;
  };
  test_cases = case_of 49 49 ∷ case_of 50 50 ∷ [];
}

abbrev pub files : String → Option Problem
files path = some echo_problem

abbrev pub idle : State ℕ
idle = record {
  service = record {
    limiters = [];
    slots = record { table = []; buffered = λ a. 0; next_channel = 0 };
  };
  cache = [];
  world = busy;
}

execute_against_problem-Verdict_example :
    Judgement echo "c" "go" echo_problem (execute_against_problem echo echo_problem "c" "go")
execute_against_problem-Verdict_example = execute_against_problem-Verdict echo "c" "go" echo_problem

submit_code-returns_example :
    (r : Result SubmissionResult) × (st' : State ℕ) × (submit_code 3 allow is_full echo files 2 3
        "c" "go" idle
      ≡ some (r, st'))
    × (((try_acquire_slot (submit_key 3) idle.service.slots).0 ≡ false)
          × (r ≡ err (app execution_in_progress))
        ⊎ ((try_acquire_slot (submit_key 3) st'.service.slots).0 ≡ true))
submit_code-returns_example = submit_code-returns 3 allow is_full echo files 2 3 "c" "go" idle

-- What a submission leaves.
abbrev result_of : Option (Result SubmissionResult × State ℕ) → Result SubmissionResult
result_of none = err (app execution_in_progress)
result_of (some (r, st)) = r

abbrev state_of : Option (Result SubmissionResult × State ℕ) → State ℕ
state_of none = idle
state_of (some (r, st)) = st

abbrev submitted : Option (Result SubmissionResult × State ℕ)
submitted = submit_code 3 allow is_full echo files 2 3 "c" "go" idle

is_returned :
    (o : Option (Result SubmissionResult × State ℕ)) (r : Result SubmissionResult) (st : State ℕ)
    → o ≡ some (r, st)
    → o ≡ some (result_of o, state_of o)
is_returned o r st e = subst (λ x. x ≡ some (result_of x, state_of x)) (sym e) refl

test-submitted : submitted ≡ some (result_of submitted, state_of submitted)
test-submitted =
    let (r, st, e, _) = submit_code-returns 3 allow is_full echo files 2 3 "c" "go" idle in
    is_returned submitted r st e

submit_code-Earned_example :
    ((state_of submitted).world.db ≡ busy.db)
    ⊎ Earned 3 allow is_full echo files 2 3 "c" "go" busy []
submit_code-Earned_example =
    submit_code-Earned 3 allow is_full echo files 2 3 "c" "go" idle (state_of submitted)
      (result_of submitted) test-submitted

abbrev idle_fresh : State ℕ
idle_fresh = record idle { world = fresh }

abbrev refused : Option (Result SubmissionResult × State ℕ)
refused = submit_code 3 allow is_full echo files 2 3 "c" "go" idle_fresh

test-refused : refused ≡ some (result_of refused, state_of refused)
unfolding submit_code try_acquire_slot byte_battle.Execution.try_send
    byte_battle.Execution.load_or_store byte_battle.Execution.load
    byte_battle.Execution.release_slot byte_battle.Submission.submit_with_slot
    byte_battle.Execution.check_rate_limit byte_battle.Execution.allow_user
    byte_battle.Submission.get_current_problem byte_battle.Submission.current_row
    byte_battle.Game.Read.get_game byte_battle.Queries.Games.get_game_by_id
    byte_battle.Db.Exec.statement byte_battle.Execution.receive
test-refused = refl

abbrev shown : ApiGame
shown = record {
  id = 2;
  is_public = false;
  is_solo = false;
  problem_ids = "sum" ∷ "sort" ∷ [];
  creator_id = 1;
  status = active;
  participants = record { id = 1; name = some "user" } ∷ record { id = 3; name = some "user" } ∷ [];
  created_at = 10;
  updated_at = 10;
  started_at = some 20;
  winner_id = none;
  invite_token = some 72;
  time_limit_minutes = none;
}

respond-MayInvite_example : MayInvite 1 (respond (get 2) 1 busy).1.db shown
unfolding respond byte_battle.Server.Games.get_game byte_battle.Game.Read.get_game
    byte_battle.Queries.Games.get_game_by_id byte_battle.Db.Exec.statement
    byte_battle.Game.Read.can_access_game byte_battle.Queries.GameParticipants.is_game_participant
    byte_battle.Server.Games.enrich_game byte_battle.Game.Read.get_participants
    byte_battle.Queries.GameParticipants.get_participants byte_battle.Game.Read.get_game_problem_ids
    byte_battle.Queries.GameProblems.get_game_problem_ids byte_battle.Server.Games.to_api_game
    byte_battle.Prelude.order_by
respond-MayInvite_example = respond-MayInvite (get 2) 1 busy shown 72 refl refl
