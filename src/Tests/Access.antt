-- ===== src/Tests/Access.antt =====
-- The middleware on the data.
use byte_battle.Prelude.{ℕ, ◌≡◌, refl, arith, false, some, none, Option}
use byte_battle.ApiErr.{invalid_token}
use byte_battle.Db.Rows.{Session}
use byte_battle.Db.Exec.{World, Action, ok, err, app, pure}
use byte_battle.Session.{validate_token}
use byte_battle.Server.Access.{serve}
use byte_battle.Server.Auth.{post_auth_logout}
use byte_battle.Server.Gate.{serve-authentic, logout-refuses}
use byte_battle.Tests.Sessions.{service, opened, two_sessions, two_sessions-IsKeyed}

-- A protected operation that answers with the user of its session.
abbrev whose : Option Session → Action ℕ
whose none = pure 0
whose (some s) = pure s.user_id

serve-authentic_example :
    (s : Session) × (v : World) × ((validate_token "00" two_sessions).0 ≡ ok s)
    × ((whose (some s) v).0 ≡ ok 2)
unfolding serve byte_battle.Server.Access.optional_auth validate_token
    byte_battle.Queries.Sessions.get_session_by_token byte_battle.Db.Exec.statement
    byte_battle.Session.try_refresh byte_battle.Server.Access.strict_auth
    byte_battle.Server.Access.require_auth
serve-authentic_example = serve-authentic service "00" whose two_sessions 2 refl

-- The database after the session's logout.
abbrev gone : World
gone = (post_auth_logout (some opened) two_sessions).1

logout-refuses_example :
    ((serve service false "00" whose gone).0 ≡ err (app invalid_token))
    × ((serve service false "00" whose gone).1.db ≡ gone.db)
unfolding post_auth_logout byte_battle.Session.end_session
    byte_battle.Queries.Sessions.delete_session byte_battle.Db.Exec.statement
logout-refuses_example =
    logout-refuses service "00" whose opened two_sessions gone two_sessions-IsKeyed (omega arith)
      refl refl refl refl
