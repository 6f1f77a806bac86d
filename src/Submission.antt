-- ===== src/Submission.antt =====
-- internal/service/submission_service.go. The executor, golang.org/x/time/rate and the problems'
-- files are parameters; `run i` is what the executor's Run gives for the i-th test.
use byte_battle.Prelude.{
  ℕ, zero, suc, ◌≡◌, ◌==◌, if◌then◌else◌, Bool, true, false, ◌||◌, not, Option, some, none, List,
  [], ◌∷◌, String,
}
use byte_battle.ApiErr.{game_not_in_progress, execution_in_progress, execution_rate_limited}
use byte_battle.Db.Rows.{Game, Uuid}
use byte_battle.Db.Exec.{
  Result, ok, err, Error, app, no_problem_files, game_already_finished, World, Action, pure, raise,
  raise_if, ◌>>=◌, ◌>>◌, to_int32,
}
use byte_battle.Queries.GameProblems.{GetGameProblemByIndexRow}
use byte_battle.Queries.Solutions.{insert_solution, InsertSolutionParams}
use byte_battle.Game.Members.{is_active}
use byte_battle.Game.Progress.{handle_accepted_submission}
use byte_battle.Game.Read.{
  get_game, participant_problem_index, get_game_problem_by_index, get_game_problem_id_by_index,
}
use byte_battle.Problem.{Text, TestCase, Problem}
use byte_battle.Problem.Output.{matches}
use byte_battle.Problem.Store.{Cache, get_by_path}
use byte_battle.Execution.{
  SlotKey, submit, ExecutionService, Slots, try_acquire_slot, release_slot, check_rate_limit,
}
pub mod Verdict
pub mod Effects
pub mod Outcome

pub record ExecutionRequest : Type 0 where
  pub code : String
  pub language : String
  pub stdin : Text
  pub time_limit : ℕ
  pub memory_limit : ℕ

pub record ExecutionResult : Type 0 where
  pub stdout : Text
  pub stderr : Text
  pub exit_code : ℕ

-- What Run returns: a result, and whether there is an error.
abbrev pub Executor : Type 0
Executor = ℕ → ExecutionRequest → ExecutionResult × Bool

pub record SubmissionResult : Type 0 where
  pub accepted : Bool
  pub already_advanced : Bool
  pub failed_test : Option ℕ
  pub stdout : Text
  pub stderr : Text
  pub winner_id : Uuid
  pub problem_id : String
  pub problem_idx : ℕ

pub record ActiveProblem : Type 0 where
  pub problem : Problem
  pub version_id : ℕ

pub record ExecutionOutcome : Type 0 where
  pub accepted : Bool
  pub failed_test : Option ℕ
  pub stdout : Text
  pub stderr : Text

-- The zero value of SubmissionResult.
abbrev pub no_result : SubmissionResult
no_result = record {
  accepted = false;
  already_advanced = false;
  failed_test = none;
  stdout = [];
  stderr = [];
  winner_id = 0;
  problem_id = "";
  problem_idx = 0;
}

-- The request for a test: neither the problem's time limit nor its memory limit is set.
abbrev pub request_of : String → String → TestCase → ExecutionRequest
request_of code language t = record {
  code = code;
  language = language;
  stdin = t.input;
  time_limit = 0;
  memory_limit = 0;
}

abbrev pub started : ExecutionOutcome
started = record { accepted = true; failed_test = none; stdout = []; stderr = [] }

module _ (run : Executor) where
  abbrev pub passes : String → String → ℕ → TestCase → Bool
  passes code language i t =
      let (result, failed) = run i (request_of code language t) in
      not (failed || not (matches result.stdout t.expected))

  -- The outcome after a test.
  abbrev pub noted : String → String → ℕ → TestCase → ExecutionOutcome
  noted code language i t =
      let (result, failed) = run i (request_of code language t) in
      let bad = failed || not (matches result.stdout t.expected) in
      record {
        accepted = not bad;
        failed_test = if bad then some i else none;
        stdout = result.stdout;
        stderr = result.stderr;
      }

  -- The loop over the test cases, from the i-th on.
  unfoldable pub run_tests :
      String → String → ℕ → ExecutionOutcome → List TestCase → ExecutionOutcome
  run_tests code language i outcome [] = outcome
  run_tests code language i outcome (t ∷ ts) =
      let next = noted code language i t in
      let rest = run_tests code language (suc i) next ts in if next.accepted then rest else next

  unfoldable pub execute_against_problem : Problem → String → String → ExecutionOutcome
  execute_against_problem problem code language =
      run_tests code language 0 started problem.test_cases

-- The row of the problem that the player is at.
unfoldable pub current_row : ℕ → Uuid → Action GetGameProblemByIndexRow
current_row game_id user = do
  game ← get_game game_id
  raise_if (not (is_active game.status)) game_not_in_progress
  idx ← participant_problem_index game_id user
  get_game_problem_by_index (to_int32 game_id) idx

abbrev winner_or_nil : Option Uuid → Uuid
winner_or_nil none = 0
winner_or_nil (some u) = u

abbrev next_problem : ℕ → Uuid → Action SubmissionResult
next_problem game_id user = do
  idx ← participant_problem_index game_id user
  next_id ← get_game_problem_id_by_index (to_int32 game_id) idx
  pure (record no_result { accepted = true; problem_id = next_id; problem_idx = idx })

-- What follows HandleAcceptedSubmission.
abbrev completed_result : ℕ → Uuid → Result (Game × Bool) → Action SubmissionResult
completed_result game_id user (err game_already_finished) =
    pure (record no_result { accepted = true; already_advanced = true })
completed_result game_id user (err e) = raise e
completed_result game_id user (ok (game, finished)) =
    if finished
    then pure (record no_result { accepted = true; winner_id = winner_or_nil game.winner_id })
    else next_problem game_id user

unfoldable pub complete_accepted_submission : ℕ → Uuid → Action SubmissionResult
complete_accepted_submission game_id user w =
    let (r, w') = handle_accepted_submission game_id user w in completed_result game_id user r w'

-- A call whose error is only logged.
abbrev pub logged : {A : Type 0} → Action A → Action (Unit {0})
logged m w = (ok tt, (m w).1)

abbrev pub submit_key : Uuid → SlotKey
submit_key user = record { user_id = user; kind = submit }

pub record State (L : Type 0) : Type 0 where
  pub service : ExecutionService L
  pub cache : Cache
  pub world : World

module _ {L : Type 0} (new_limiter : L) (allow : ℕ → L → Bool × L) (is_full : ℕ → L → Bool)
    (run : Executor) (load_problem : String → Option Problem) where
  abbrev found_problem : GetGameProblemByIndexRow → Option Problem → Result ActiveProblem
  found_problem row none = err no_problem_files
  found_problem row (some p) = ok (record { problem = p; version_id = row.problem_version_id })

  abbrev load_row :
      State L → Result GetGameProblemByIndexRow × World → Result ActiveProblem × State L
  load_row st (err e, w) = (err e, record st { world = w })
  load_row st (ok row, w) =
      let (p, cache) = get_by_path load_problem row.artifact_path st.cache in
      (found_problem row p, record st { world = w; cache = cache })

  unfoldable pub get_current_problem : ℕ → Uuid → State L → Result ActiveProblem × State L
  get_current_problem game_id user st = load_row st (current_row game_id user st.world)

  abbrev pub solution_params : ℕ → Uuid → ActiveProblem → String → String → InsertSolutionParams
  solution_params game_id user ap code language = record {
    user_id = user;
    problem_id = ap.problem.slug;
    problem_version_id = ap.version_id;
    game_id = some (to_int32 game_id);
    code = code;
    language = language;
  }

  -- The end of Submit, after the verdict.
  abbrev pub judged :
      ℕ → Uuid → String → String → ActiveProblem → ExecutionOutcome → Action SubmissionResult
  judged game_id user code language ap outcome =
      if outcome.accepted
      then logged (insert_solution (solution_params game_id user ap code language))
        >> complete_accepted_submission game_id user
      else pure (record no_result {
        failed_test = outcome.failed_test;
        stdout = outcome.stdout;
        stderr = outcome.stderr;
      })

  abbrev pub tried :
      ℕ
      → Uuid
      → String
      → String
      → Result ActiveProblem × State L
      → Result SubmissionResult × State L
  tried game_id user code language (err e, st) = (err e, st)
  tried game_id user code language (ok ap, st) =
      let (r, w) =
        judged game_id user code language ap (execute_against_problem run ap.problem code language)
          st.world in
      (r, record st { world = w })

  -- Submit between the two calls for the slot.
  unfoldable pub submit_with_slot :
      ℕ → Uuid → String → String → State L → Result SubmissionResult × State L
  submit_with_slot game_id user code language st =
      let (allowed, service) =
        check_rate_limit new_limiter allow is_full st.world.now user st.service in
      let st1 = record st { service = service } in
      if allowed
      then tried game_id user code language (get_current_problem game_id user st1)
      else (err (app execution_rate_limited), st1)

  -- The deferred ReleaseSlot; none if it waits for ever.
  abbrev pub released :
      Uuid → Result SubmissionResult × State L → Option (Result SubmissionResult × State L)
  released user (r, st) = elim (release_slot (submit_key user) st.service.slots) [
    | none ↦ none
    | some slots ↦ some (r, record st { service = record st.service { slots = slots } })
  ]

  abbrev with_slots : State L → Bool × Slots → Bool × State L
  with_slots st (b, slots) = (b, record st { service = record st.service { slots = slots } })

  -- `Submit`; none if it never returns.
  unfoldable pub submit_code :
      ℕ → Uuid → String → String → State L → Option (Result SubmissionResult × State L)
  submit_code game_id user code language st =
      let (acquired, st1) = with_slots st (try_acquire_slot (submit_key user) st.service.slots) in
      if acquired
      then released user (submit_with_slot game_id user code language st1)
      else some (err (app execution_in_progress), st1)
