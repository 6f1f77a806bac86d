-- ===== src/Server/Access.antt =====
-- internal/server/auth_middleware.go and the error answers of internal/server/http_server.go. The
-- bearer token is "" where a request has none, and a context is the session it carries.
use text.Mathlib.Text.{◌==◌ as str_eq}
use byte_battle.Prelude.{ℕ, if◌then◌else◌, Bool, Option, none, some, String}
use byte_battle.ApiErr.{Code, internal, invalid_token, validation, http_status_code}
use byte_battle.Db.Rows.{Session, Uuid}
use byte_battle.Db.Exec.{Action, Result, Error, ok, err, app, pure, raise, ◌>>=◌, ◌>>◌}
use byte_battle.Session.{SessionService, validate_token, try_refresh}

unfoldable pub user_id_from_context : Option Session → Option Uuid
user_id_from_context none = none
user_id_from_context (some s) = some s.user_id

-- What optionalAuthMiddleware makes of ValidateToken's result.
abbrev pub accept : SessionService → Result Session → Action (Option Session)
accept service (err e) = pure none
accept service (ok session) = try_refresh service session >> pure (some session)

-- `optionalAuthMiddleware`: the context for the next handler.
unfoldable pub optional_auth : SessionService → String → Action (Option Session)
optional_auth service token w =
    if str_eq token ""
    then (ok none, w)
    else (let (r, w') = validate_token token w in accept service r w')

-- `requireAuth`, and `strictAuthMiddleware` for an operation that is not public.
unfoldable pub require_auth : {A : Type 0} → Option Session → Action A → Action A
require_auth none next = raise (app invalid_token)
require_auth (some s) next = next

unfoldable pub strict_auth : {A : Type 0} → Bool → Option Session → Action A → Action A
strict_auth is_public ctx next = if is_public then next else require_auth ctx next

-- A request through the middleware to its handler.
unfoldable pub serve :
    {A : Type 0} → SessionService → Bool → String → (Option Session → Action A) → Action A
serve service is_public token handler = do
  ctx ← optional_auth service token
  strict_auth is_public ctx (handler ctx)

-- `api.ErrorResponse` without its message, and the status.
pub record ErrorResponse : Type 0 where
  pub status : ℕ
  pub error_code : Code

unfoldable pub request_error : ErrorResponse
request_error = record { status = 400; error_code = validation }

-- `writeHTTPError` and `responseErrorHandler`, which differ in the message of an internal error.
unfoldable pub write_http_error : Error → ErrorResponse
write_http_error (app c) = record { status = http_status_code c; error_code = c }
write_http_error _ = record { status = 500; error_code = internal }
