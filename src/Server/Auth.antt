-- ===== src/Server/Auth.antt =====
-- internal/server/auth_handler.go
use byte_battle.Prelude.{ℕ, Option, none, some, List, String}
use byte_battle.ApiErr.{
  Code, internal, invalid_token, invalid_email, invalid_code, too_many_attempts, code_recently_sent,
  session_not_found, validation,
}
use byte_battle.Db.Rows.{Session, User, Uuid, Time}
use byte_battle.Db.Exec.{Action, Result, Error, ok, err, app, invalid_name, pure, raise, ◌>>=◌}
use byte_battle.Queries.Users.{GetUserStatsRow}
use byte_battle.Session.{SessionService, end_session}
use byte_battle.Entrance.{EntranceConfig, Calls, send_code, verify_code, attempt}
use byte_battle.Account.{get_by_id, get_stats, update_name}
use byte_battle.Server.Access.{user_id_from_context}

-- `entranceAppErr`
unfoldable pub entrance_app_err : Error → Code
entrance_app_err (app invalid_email) = invalid_email
entrance_app_err (app invalid_code) = invalid_code
entrance_app_err (app too_many_attempts) = too_many_attempts
entrance_app_err (app code_recently_sent) = code_recently_sent
entrance_app_err _ = internal

-- `if err != nil { return nil, … }` with a code for the error.
abbrev pub coded : {A : Type 0} → (Error → Code) → Result A → Result A
coded code (ok a) = ok a
coded code (err e) = err (app (code e))

abbrev pub or_code : {A : Type 0} → Action A → (Error → Code) → Action A
or_code m code w = let (r, w') = m w in (coded code r, w')

-- The user of the context, or ErrInvalidToken.
abbrev caller : Option Session → Action Uuid
caller ctx = elim (user_id_from_context ctx) [ none ↦ raise (app invalid_token) | some u ↦ pure u ]

pub record ConfirmResponse : Type 0 where
  pub token : String
  pub expires_at : Time
  pub user_id : Uuid
  pub email : Option String
  pub name : Option String

-- The email and the name, if the user is found.
abbrev confirmed : Session → Result User → ConfirmResponse
confirmed s (err e) = record {
  token = s.token;
  expires_at = s.expires_at;
  user_id = s.user_id;
  email = none;
  name = none;
}
confirmed s (ok u) = record {
  token = s.token;
  expires_at = s.expires_at;
  user_id = s.user_id;
  email = some u.email;
  name = u.name;
}

pub record MeResponse : Type 0 where
  pub user_id : Uuid
  pub email : String
  pub name : Option String

module _ (cfg : EntranceConfig) (ext : Calls) where
  unfoldable pub post_auth_enter : String → Action (Unit {0})
  post_auth_enter email = or_code (send_code cfg ext email) entrance_app_err

  unfoldable pub post_auth_confirm :
      SessionService → Option (List ℕ) → String → String → Action ConfirmResponse
  post_auth_confirm service token_bytes email code = do
    session ←
        or_code (λ w. (verify_code cfg ext service token_bytes email code w).0) entrance_app_err
    user ← attempt (get_by_id session.user_id)
    pure (confirmed session user)

unfoldable pub get_auth_me : Option Session → Action MeResponse
get_auth_me ctx = do
  user_id ← caller ctx
  user ← or_code (get_by_id user_id) (λ e. internal)
  pure (record { user_id = user_id; email = user.email; name = user.name })

unfoldable pub get_auth_me_stats : Option Session → Action GetUserStatsRow
get_auth_me_stats ctx = do user_id ← caller ctx; or_code (get_stats user_id) (λ e. internal)

-- An error of EndSession, but that the session is gone already, is an internal one.
abbrev pub logged_out : Result (Unit {0}) → Result (Unit {0})
logged_out (ok u) = ok tt
logged_out (err (app session_not_found)) = ok tt
logged_out (err _) = err (app internal)

unfoldable pub post_auth_logout : Option Session → Action (Unit {0})
post_auth_logout none w = (ok tt, w)
post_auth_logout (some s) w = let (r, w') = end_session s.id w in (logged_out r, w')

abbrev name_err : Error → Code
name_err invalid_name = validation
name_err _ = internal

pub record PatchResponse : Type 0 where
  pub user_id : Uuid
  pub name : Option String

unfoldable pub patch_auth_me :
    (String → String) → (String → ℕ) → Option Session → String → Action PatchResponse
patch_auth_me trim_space len ctx name = do
  user_id ← caller ctx
  user ← or_code (update_name trim_space len user_id name) name_err
  pure (record { user_id = user_id; name = user.name })
