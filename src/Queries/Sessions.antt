-- ===== src/Queries/Sessions.antt =====
-- internal/db/sqlc/sessions.sql.go
use text.Mathlib.Text.{◌==◌ as str_eq}
use mathlib.Core.List.{reverse}
use byte_battle.Prelude.{
  ℕ, suc, ◌==◌, if◌then◌else◌, Bool, ◌&&◌, not, none, some, List, [], ◌∷◌, ◌++◌, filter, find?, any,
  update, delete, order_by, length, ltb, String,
}
use byte_battle.Db.Rows.{Db, Session, Uuid, Time}
use byte_battle.Db.Exec.{World, Action, ok, err, no_rows, constraint, statement, query, one}
use byte_battle.Queries.Games.{max_serial, user_exists}

pub record CreateSessionParams : Type 0 where
  pub user_id : Uuid
  pub token : String
  pub expires_at : Time

-- WHERE id = $1
abbrev pub session_is : ℕ → Session → Bool
session_is i s = s.id == i

-- WHERE token = $1
abbrev pub has_token : String → Session → Bool
has_token t s = str_eq s.token t

-- WHERE user_id = $1
abbrev pub belongs_to : Uuid → Session → Bool
belongs_to u s = s.user_id == u

abbrev pub new_session : CreateSessionParams → World → Session
new_session arg w = record {
  id = w.db.next_session_id;
  user_id = arg.user_id;
  token = arg.token;
  expires_at = arg.expires_at;
  created_at = w.now;
  updated_at = w.now;
}

abbrev pub insert_session : Session → Db → Db
insert_session s d = record d {
  sessions = d.sessions ++ (s ∷ []);
  next_session_id = suc d.next_session_id;
}

-- The user exists, the token is unique, and the sequence has a next value.
unfoldable pub create_session : CreateSessionParams → Action Session
create_session arg = statement λ w.
    let s = new_session arg w in
    if ltb s.id max_serial
      && user_exists arg.user_id w.db
      && not (any (has_token arg.token) w.db.sessions)
    then ok (s, insert_session s w.db)
    else err constraint

-- DELETE FROM sessions WHERE …
abbrev pub drop_sessions : (Session → Bool) → Db → Db
drop_sessions p d = record d { sessions = delete p d.sessions }

-- The number of rows deleted.
abbrev delete_where : (ℕ → Session → Bool) → Action ℕ
delete_where p =
    statement λ w. ok (length (filter (p w.now) w.db.sessions), drop_sessions (p w.now) w.db)

-- expires_at < NOW()
abbrev pub is_expired : ℕ → Session → Bool
is_expired now s = ltb s.expires_at now

unfoldable pub delete_expired_sessions : Action ℕ
delete_expired_sessions = delete_where is_expired

unfoldable pub delete_session : ℕ → Action ℕ
delete_session i = delete_where λ now. session_is i

unfoldable pub delete_sessions_by_user_id : Uuid → Action ℕ
delete_sessions_by_user_id u = delete_where λ now. belongs_to u

unfoldable pub get_session_by_id : ℕ → Action Session
get_session_by_id i = query λ d. one (find? (session_is i) d.sessions)

unfoldable pub get_session_by_token : String → Action Session
get_session_by_token t = query λ d. one (find? (has_token t) d.sessions)

-- ORDER BY created_at DESC
unfoldable pub get_sessions_by_user_id : Uuid → Action (List Session)
get_sessions_by_user_id u =
    query λ d. ok (reverse (order_by (λ s. s.created_at) (filter (belongs_to u) d.sessions)))

abbrev pub extended : Time → ℕ → Session → Session
extended expires_at now s = record s { expires_at = expires_at; updated_at = now }

abbrev pub extend_session : ℕ → Time → ℕ → Db → Db
extend_session i expires_at now d = record d {
  sessions = update (session_is i) (extended expires_at now) d.sessions;
}

unfoldable pub update_session_expiry : ℕ → Time → Action Session
update_session_expiry i expires_at = statement λ w. elim (find? (session_is i) w.db.sessions) [
  | none ↦ err no_rows
  | some s ↦ ok (extended expires_at w.now s, extend_session i expires_at w.now w.db)
]
