-- ===== src/Server/Rooms.antt =====
-- internal/server/handler.go: what the WebSocket handler tells the clients of a game. A message is
-- the number that json.Marshal, a parameter, makes of it.
use text.Mathlib.Text.{◌==◌ as str_eq}
use byte_battle.Prelude.{ℕ, ◌==◌, if◌then◌else◌, Bool, Option, none, some, List, [], String}
use byte_battle.ApiErr.{Code, internal}
use byte_battle.Db.Rows.{Uuid}
use byte_battle.Db.Exec.{World, Result, Error, ok, err, app}
use byte_battle.Game.Read.{participants_problem_indices}
use byte_battle.Hub.{Hub, broadcast, send_to_user}
use byte_battle.Problem.{Text, Problem}
use byte_battle.Submission.{SubmissionResult, State, Executor, submit_code}

-- `ws.ServerMessage`, by its type, with the fields that the handler fills.
pub data ServerMessage : Type 0 where
  submission_result : Uuid → Bool → Text → Text → Option ℕ → ServerMessage
  game_finished : Uuid → ServerMessage
  player_advanced : Uuid → String → ℕ → List (Uuid × ℕ) → ServerMessage
  error_message : Uuid → Code → ServerMessage

module _ (marshal : ServerMessage → ℕ) where
  -- The code that processSubmit reports for an error.
  abbrev pub code_of : Error → Code
  code_of (app c) = c
  code_of _ = internal

  unfoldable pub broadcast_error : ℕ → Uuid → Code → Hub → Hub
  broadcast_error game user code h = send_to_user game user (marshal (error_message user code)) h

  abbrev progress_of : Result (List (Uuid × ℕ)) → List (Uuid × ℕ)
  progress_of (ok rows) = rows
  progress_of (err e) = []

  -- What everybody in the room is told of an accepted submission.
  unfoldable pub announce : ℕ → Uuid → SubmissionResult → World → Hub → World × Hub
  announce game user r w h =
      let (progress, w') = participants_problem_indices game w in
      if r.winner_id == 0
      then (if str_eq r.problem_id "" then (w, h) else (
        w',
        broadcast game
            (marshal (player_advanced user r.problem_id r.problem_idx (progress_of progress))) h,
      ))
      else (w, broadcast game (marshal (game_finished r.winner_id)) h)

  -- `processSubmit` after Submit has returned.
  unfoldable pub report : ℕ → Uuid → Result SubmissionResult → World → Hub → World × Hub
  report game user (err e) w h = (w, broadcast_error game user (code_of e) h)
  report game user (ok r) w h =
      let told =
        send_to_user game user
          (marshal (submission_result user r.accepted r.stdout r.stderr r.failed_test)) h in
      if r.already_advanced
      then (w, h)
      else if r.accepted
      then announce game user r w told
      else (w, told)

  abbrev pub reported :
      {L : Type 0}
      → ℕ
      → Uuid
      → Hub
      → Option (Result SubmissionResult × State L)
      → Option (State L × Hub)
  reported game user h none = none
  reported game user h (some (r, st)) =
      let (w, h') = report game user r st.world h in some (record st { world = w }, h')

  -- `processSubmit`; none if Submit never returns.
  unfoldable pub process_submit :
      {L : Type 0}
      → L
      → (ℕ → L → Bool × L)
      → (ℕ → L → Bool)
      → Executor
      → (String → Option Problem)
      → ℕ
      → Uuid
      → String
      → String
      → State L
      → Hub
      → Option (State L × Hub)
  process_submit new_limiter allow is_full run load_problem game user code language st h =
      reported game user h
        (submit_code new_limiter allow is_full run load_problem game user code language st)
