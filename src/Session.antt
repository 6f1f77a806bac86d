-- ===== src/Session.antt =====
-- internal/service/session_service.go: the sessions of users.
pub mod Keys
pub mod Requests
pub mod Validity
pub mod Refresh
use text.Mathlib.Text.{◌==◌ as str_eq}
use mathlib.Core.Option
use byte_battle.Prelude.{ℕ, ◌+◌, ◌/◌, ◌==◌, ltb, if◌then◌else◌, Option, none, some, List, String}
use byte_battle.ApiErr.{session_not_found, invalid_token, session_expired}
use byte_battle.Db.Rows.{Session, Uuid, Time}
use byte_battle.Db.Exec.{
  World, Action, ok, no_randomness, pure, raise, raise_if, ◌>>=◌, ◌>>◌, or_missing, to_int32,
}
use byte_battle.Queries.Sessions.{
  get_session_by_id, get_session_by_token, get_sessions_by_user_id, delete_session,
  delete_sessions_by_user_id, delete_expired_sessions, update_session_expiry,
}
use byte_battle.Queries.Sessions as Sessions

-- `SessionService`, without the handle of the database. Durations are not negative.
pub record SessionService : Type 0 where
  pub session_duration : ℕ

-- 24 hours, in nanoseconds.
abbrev pub default_session_duration : ℕ
default_session_duration = 86400000000000

-- NewSessionService without options, and with WithSessionDuration.
abbrev pub new_session_service : Option ℕ → SessionService
new_session_service none = record { session_duration = default_session_duration }
new_session_service (some d) = record { session_duration = d }

-- time.Now()
abbrev time_now : Action Time
time_now w = (ok w.now, w)

-- `bytes` is what rand.Read gives, `none` where it fails, and `hex` is hex.EncodeToString.
unfoldable pub generate_token : (List ℕ → String) → Option (List ℕ) → Action String
generate_token hex none = raise no_randomness
generate_token hex (some bytes) = pure (hex bytes)

module _ (service : SessionService) where
  unfoldable pub create_session : (List ℕ → String) → Option (List ℕ) → Uuid → Action Session
  create_session hex bytes user = do
    token ← generate_token hex bytes
    now ← time_now
    Sessions.create_session
        (record { user_id = user; token = token; expires_at = now + service.session_duration })

  unfoldable pub refresh_session : ℕ → Action Session
  refresh_session id = do
    now ← time_now
    or_missing (update_session_expiry (to_int32 id) (now + service.session_duration))
        session_not_found

  -- What RefreshSession returns is dropped.
  unfoldable pub try_refresh : Session → Action (Unit {0})
  try_refresh session = do
    now ← time_now
    (if ltb (now + service.session_duration / 2) session.expires_at then pure tt else λ w.
        (ok tt, (refresh_session session.id w).1))

unfoldable pub get_session : ℕ → Action Session
get_session id = or_missing (get_session_by_id (to_int32 id)) session_not_found

unfoldable pub validate_token : String → Action Session
validate_token token = do
  raise_if (str_eq token "") invalid_token
  session ← or_missing (get_session_by_token token) invalid_token
  now ← time_now
  raise_if (ltb session.expires_at now) session_expired
  pure session

unfoldable pub get_user_sessions : Uuid → Action (List Session)
get_user_sessions user = get_sessions_by_user_id user

unfoldable pub end_session : ℕ → Action (Unit {0})
end_session id = do n ← delete_session (to_int32 id); raise_if (n == 0) session_not_found

unfoldable pub end_all_user_sessions : Uuid → Action ℕ
end_all_user_sessions user = delete_sessions_by_user_id user

unfoldable pub cleanup_expired : Action ℕ
cleanup_expired = delete_expired_sessions
