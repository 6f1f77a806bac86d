-- ===== src/Session/Validity.antt =====
-- Which tokens ValidateToken accepts, over the life of a session.
use text.Mathlib.Text.{◌==◌ as str_eq}
use text.Mathlib.TextPositions.{eq_refl}
use byte_battle.Prelude.{
  ℕ, ◌+◌, ◌≤◌, ◌≡◌, ◌↔◌, refl, sym, ap, ◌∙◌, ltb, if◌then◌else◌, Bool, false, Option, none, some,
  List, [], ◌∷◌, ◌++◌, any, String, find?, delete, arith, find?-append_none,
}
use byte_battle.ApiErr.{invalid_token, session_expired}
use byte_battle.Db.Rows.{Session, Uuid}
use byte_battle.Db.Exec.{World, to_int32, Result, ok, err, app, statement}
use byte_battle.Queries.Sessions.{
  session_is, has_token, belongs_to, is_expired, extended, get_session_by_token, delete_session,
  delete_sessions_by_user_id, delete_expired_sessions, update_session_expiry,
}
use byte_battle.Queries.Sessions as Queries
use byte_battle.Session.{
  SessionService, validate_token, create_session, generate_token, end_session,
  end_all_user_sessions, cleanup_expired,
}
use byte_battle.Session.Keys.{IsKeyed, drop_if, find?-delete_token, find?-missing, end_session-ok}

-- What ValidateToken says of a row at a time.
abbrev pub verdict : String → ℕ → Option Session → Result Session
verdict t now none = err (app invalid_token)
verdict t now (some s) =
    if str_eq t ""
    then err (app invalid_token)
    else if ltb s.expires_at now
    then err (app session_expired)
    else ok s

abbrev pub lookup : String → World → Option Session
lookup t w = find? (has_token t) w.db.sessions

-- When its round trip does not fail, ValidateToken accepts a token that is not empty, belongs to a
-- session and has not expired, and gives that session; it changes nothing.
pub validate_token-outcome :
    (t : String) (w : World)
    → w.fails w.calls ≡ false
    → ((validate_token t w).0 ≡ verdict t w.now (lookup t w)) × ((validate_token t w).1.db ≡ w.db)
unfolding validate_token get_session_by_token statement
validate_token-outcome t w up = ground arith

module _ (service : SessionService) (hex : List ℕ → String) (bytes : Option (List ℕ)) (user : Uuid)
    (w w' : World) (s : Session)
    (created : (create_session service hex bytes user w).0 ≡ ok s) where
  made :
      ((create_session service hex bytes user w).1.db.sessions ≡ w.db.sessions ++ (s ∷ []))
      × (any (has_token s.token) w.db.sessions ≡ false)
      × (s.expires_at ≡ w.now + service.session_duration)
  unfolding create_session generate_token Queries.create_session statement
  made = ground arith

  -- The token of a session that was created, if it is not empty, is accepted until the session's
  -- duration is over and refused as expired from then on, as long as the database stays as it was
  -- and the round trip does not fail.
  pub create_session-validate_token :
      w'.db ≡ (create_session service hex bytes user w).1.db
      → w'.fails w'.calls ≡ false
      → str_eq s.token "" ≡ false
      → (validate_token s.token w').0 ≡ (
          if ltb (w.now + service.session_duration) w'.now then err (app session_expired) else ok s)
  create_session-validate_token later up some_token =
      let (rows, fresh, expiry) = made in
      let found : lookup s.token w' ≡ some s =
        ap (λ d. find? (has_token s.token) d.sessions) later
        ∙ ap (λ ss. find? (has_token s.token) ss) rows
        ∙ find?-append_none (has_token s.token) w.db.sessions (s ∷ [])
            (find?-missing (has_token s.token) w.db.sessions fresh)
        ∙ own_token in
      (validate_token-outcome s.token w' up).0
      ∙ ap (verdict s.token w'.now) found
      ∙ judged expiry some_token
    where
      own_token : find? (has_token s.token) (s ∷ []) ≡ some s
      own_token = rw (eq_refl s.token) refl

      judged :
          s.expires_at ≡ w.now + service.session_duration
          → str_eq s.token "" ≡ false
          → verdict s.token w'.now (some s) ≡ (
              if ltb (w.now + service.session_duration) w'.now
              then err (app session_expired)
              else ok s)
      judged e n = rw n (rw e refl)

-- After sessions were deleted, a token is judged by the session it had, if that is still there.
pub deleted :
    (p : Session → Bool) (t : String) (w w' : World)
    → IsKeyed w.db
    → w'.db.sessions ≡ delete p w.db.sessions
    → w'.fails w'.calls ≡ false
    → (validate_token t w').0 ≡ verdict t w'.now (drop_if p (lookup t w))
deleted p t w w' v e up =
    (validate_token-outcome t w' up).0
    ∙ ap (λ ss. verdict t w'.now (find? (has_token t) ss)) e
    ∙ ap (verdict t w'.now) (find?-delete_token w.db.next_session_id p t w.db.sessions v)

module _ (t : String) (w w' : World) (keyed : IsKeyed w.db) (up : w'.fails w'.calls ≡ false) where
  -- When sessions have an id and a token of their own, EndSession has succeeded, and the next
  -- round trip does not fail on the database that it left, a token is judged as before, but that
  -- of the session that was ended is refused as invalid.
  pub end_session-validate_token :
      (id : ℕ)
      → (end_session id w).0 ≡ ok tt
      → w'.db ≡ (end_session id w).1.db
      → (validate_token t w').0 ≡ verdict t w'.now (drop_if (session_is (to_int32 id)) (lookup t w))
  end_session-validate_token id ended later =
      deleted (session_is (to_int32 id)) t w w' keyed
        (ap (λ d. d.sessions) (later ∙ end_session-ok id w ended)) up

  -- When sessions have an id and a token of their own, EndAllUserSessions has succeeded, and the
  -- next round trip does not fail on the database that it left, a token is judged as before, but
  -- those of the user are refused as invalid.
  end_all-validate_token :
      (user : Uuid) (n : ℕ)
      → (end_all_user_sessions user w).0 ≡ ok n
      → w'.db ≡ (end_all_user_sessions user w).1.db
      → (validate_token t w').0 ≡ verdict t w'.now (drop_if (belongs_to user) (lookup t w))
  unfolding end_all_user_sessions delete_sessions_by_user_id statement
  end_all-validate_token user n ended later =
      deleted (belongs_to user) t w w' keyed (ap (λ d. d.sessions) later ∙ rows user n ended) up
    where
      rows :
          (user : Uuid) (n : ℕ)
          → (end_all_user_sessions user w).0 ≡ ok n
          → (end_all_user_sessions user w).1.db.sessions ≡ delete (belongs_to user) w.db.sessions
      rows user n ended = ground arith

  -- When sessions have an id and a token of their own, CleanupExpired has succeeded, time has not
  -- gone back and the round trips of the two validations do not fail, a token is accepted with a
  -- session after the cleanup exactly if it would have been at the same time without it.
  pub cleanup-validate_token :
      (u : World) (s : Session) (n : ℕ)
      → (cleanup_expired w).0 ≡ ok n
      → w'.db ≡ (cleanup_expired w).1.db
      → u.db ≡ w.db
      → u.now ≡ w'.now
      → w.now ≤ w'.now
      → u.fails u.calls ≡ false
      → ((validate_token t w').0 ≡ ok s) ↔ ((validate_token t u).0 ≡ ok s)
  unfolding cleanup_expired delete_expired_sessions statement
  cleanup-validate_token u s n cleaned later same same_time forward up' =
      let here =
        deleted (is_expired w.now) t w w' keyed (ap (λ d. d.sessions) later ∙ rows n cleaned) up in
      let there =
        (validate_token-outcome t u up').0
        ∙ ap (λ d. verdict t u.now (find? (has_token t) d.sessions)) same
        ∙ ap (λ m. verdict t m (lookup t w)) same_time in
      let both = judged (lookup t w) in
      (λ h. there ∙ both.0 (sym here ∙ h), λ h. here ∙ both.1 (sym there ∙ h))
    where
      rows :
          (n : ℕ)
          → (cleanup_expired w).0 ≡ ok n
          → (cleanup_expired w).1.db.sessions ≡ delete (is_expired w.now) w.db.sessions
      rows n cleaned = ground arith

      judged :
          (o : Option Session)
          → (verdict t w'.now (drop_if (is_expired w.now) o) ≡ ok s) ↔ (verdict t w'.now o ≡ ok s)
      judged none = (λ h. h, λ h. h)
      judged (some r) = (λ h. ground arith, λ h. ground arith)
