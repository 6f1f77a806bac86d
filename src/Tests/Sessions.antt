-- ===== src/Tests/Sessions.antt =====
-- SessionService on the data.
use byte_battle.Prelude.{ℕ, ◌≡◌, refl, some, List, [], ◌∷◌, String, arith}
use byte_battle.ApiErr.{session_expired, invalid_token}
use byte_battle.Db.Rows.{Session}
use byte_battle.Db.Exec.{World, ok, err, app}
use byte_battle.Queries.Sessions.{session_is}
use byte_battle.Session.{
  SessionService, validate_token, create_session, end_session, end_all_user_sessions,
  cleanup_expired, try_refresh,
}
use byte_battle.Session.Keys.{IsKeyed}
use byte_battle.Session.Requests.{Request, create, touch, serve, serve-end_session}
use byte_battle.Session.Validity.{create_session-validate_token}
use byte_battle.Tests.Data.{fresh}

abbrev pub service : SessionService
service = record { session_duration = 1000 }

-- Two tokens in place of hex.EncodeToString.
abbrev hex : List ℕ → String
hex [] = "00"
hex (_ ∷ _) = "01"

abbrev pub opened : Session
opened = record {
  id = 1;
  user_id = 2;
  token = "00";
  expires_at = 1100;
  created_at = 100;
  updated_at = 100;
}

abbrev other : Session
other = record opened { id = 2; user_id = 3; token = "01"; expires_at = 300 }

abbrev pub two_sessions : World
two_sessions = record fresh {
  db = record fresh.db { sessions = opened ∷ other ∷ []; next_session_id = 3 };
}

pub two_sessions-IsKeyed : IsKeyed two_sessions.db
two_sessions-IsKeyed = (omega arith, refl, refl, (omega arith, refl, refl, tt))

abbrev day : List (ℕ × Request)
day = (100, create (some []) 2) ∷ (110, create (some (7 ∷ [])) 3) ∷ (900, touch opened) ∷ []

-- The first session is ended at the end of the day.
abbrev evening : World
evening = (end_session 1 (serve service hex day fresh)).1

serve-end_session_example : (validate_token "00" evening).0 ≡ err (app invalid_token)
unfolding end_session byte_battle.Queries.Sessions.delete_session byte_battle.Db.Exec.statement
    serve byte_battle.Session.Requests.handle try_refresh byte_battle.Session.refresh_session
    byte_battle.Queries.Sessions.update_session_expiry create_session
    byte_battle.Session.generate_token byte_battle.Queries.Sessions.create_session
serve-end_session_example =
    serve-end_session service hex day "00" 1 fresh evening refl refl refl refl

test-created : (create_session service hex (some []) 2 fresh).0 ≡ ok opened
unfolding create_session byte_battle.Session.generate_token
    byte_battle.Queries.Sessions.create_session byte_battle.Db.Exec.statement
test-created = refl

-- At time 1101 the session is over.
abbrev late : World
late = record (create_session service hex (some []) 2 fresh).1 { now = 1101 }

create_session-validate_token_example : (validate_token "00" late).0 ≡ err (app session_expired)
unfolding create_session byte_battle.Session.generate_token
    byte_battle.Queries.Sessions.create_session byte_battle.Db.Exec.statement
create_session-validate_token_example =
    create_session-validate_token service hex (some []) 2 fresh late opened test-created refl refl
      refl

test-ended : (end_session 1 two_sessions).0 ≡ ok tt
unfolding end_session byte_battle.Queries.Sessions.delete_session byte_battle.Db.Exec.statement
test-ended = refl

test-all_ended : (end_all_user_sessions 3 two_sessions).0 ≡ ok 1
unfolding end_all_user_sessions byte_battle.Queries.Sessions.delete_sessions_by_user_id
    byte_battle.Db.Exec.statement
test-all_ended = refl

-- At time 500 the cleanup deletes the other session.
abbrev noon : World
noon = record two_sessions { now = 500 }

test-cleaned : (cleanup_expired noon).0 ≡ ok 1
unfolding cleanup_expired byte_battle.Queries.Sessions.delete_expired_sessions
    byte_battle.Db.Exec.statement
test-cleaned = refl
