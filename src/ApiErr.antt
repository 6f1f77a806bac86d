-- ===== src/ApiErr.antt =====
-- internal/apierr/errors.go: the error codes of the API and their HTTP status. The texts of the
-- messages are left out.
use byte_battle.Prelude.{ℕ}

-- The constants `Err…`.
pub data Code : Type 0 where
  internal game_not_found not_enough_players already_participant game_already_started : Code
  game_not_in_progress invalid_winner not_game_creator cannot_cancel_finished_game : Code
  game_not_finished game_already_cancelled not_participant creator_cannot_leave : Code
  private_game session_not_found session_expired invalid_token problem_not_found : Code
  invalid_email invalid_code too_many_attempts code_recently_sent : Code
  execution_rate_limited execution_in_progress executor_overloaded user_not_found : Code
  validation problem_limit_reached version_limit_reached not_problem_owner : Code
  executor_not_ready archive_invalid : Code

-- `httpStatusCode`; the last clause is `default`.
unfoldable pub http_status_code : Code → ℕ
http_status_code validation = 400
http_status_code not_enough_players = 400
http_status_code invalid_winner = 400
http_status_code archive_invalid = 400
http_status_code not_game_creator = 403
http_status_code creator_cannot_leave = 403
http_status_code not_participant = 403
http_status_code private_game = 403
http_status_code not_problem_owner = 403
http_status_code problem_limit_reached = 422
http_status_code version_limit_reached = 422
http_status_code already_participant = 409
http_status_code game_already_started = 409
http_status_code game_not_in_progress = 409
http_status_code cannot_cancel_finished_game = 409
http_status_code game_already_cancelled = 409
http_status_code game_not_finished = 403
http_status_code invalid_token = 401
http_status_code session_expired = 401
http_status_code game_not_found = 404
http_status_code session_not_found = 404
http_status_code problem_not_found = 404
http_status_code user_not_found = 404
http_status_code too_many_attempts = 429
http_status_code code_recently_sent = 429
http_status_code execution_rate_limited = 429
http_status_code execution_in_progress = 429
http_status_code executor_overloaded = 503
http_status_code executor_not_ready = 503
http_status_code invalid_email = 400
http_status_code invalid_code = 400
http_status_code _ = 500

-- `AppError`, without its message.
pub record AppError : Type 0 where
  pub error_code : Code
  pub http_status : ℕ

-- `New`
unfoldable pub new : Code → AppError
unfolding http_status_code
new code = record { error_code = code; http_status = http_status_code code }
