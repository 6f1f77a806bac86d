-- ===== src/Server/Gate.antt =====
-- Whom the middleware lets through.
use text.Mathlib.Text.{◌==◌ as str_eq}
use byte_battle.Prelude.{
  ℕ, ◌<◌, ◌≡◌, refl, sym, ap, ◌∙◌, ◌==◌, true, false, none, some, Option, String, inl, inr,
  Bool-cases, delete, arith,
}
use byte_battle.ApiErr.{invalid_token, internal, session_not_found}
use byte_battle.Db.Rows.{Session}
use byte_battle.Db.Exec.{
  World, Action, Error, ok, err, app, db_failure, pure, raise_if, Result-cases, statement, to_int32,
  >>=-after_ok, >>=-after_err,
}
use byte_battle.Queries.Sessions.{session_is, get_session_by_token, delete_session}
use byte_battle.Session.{SessionService, validate_token, try_refresh, end_session}
use byte_battle.Session.Keys.{IsKeyed, drop_if}
use byte_battle.Session.Validity.{verdict, lookup, deleted}
use byte_battle.Server.Access.{optional_auth, require_auth, strict_auth, serve}
use byte_battle.Server.Auth.{post_auth_logout, logged_out}

-- A token that is refused has changed nothing.
validate_token-same : (t : String) (w : World) → (validate_token t w).1.db ≡ w.db
unfolding validate_token get_session_by_token statement
validate_token-same t w = ground arith

empty-refused :
    (t : String) (w : World) → str_eq t "" ≡ true → (validate_token t w).0 ≡ err (app invalid_token)
unfolding validate_token
empty-refused t w e = ground arith

try_refresh-ok :
    (service : SessionService) (s : Session) (w : World) → (try_refresh service s w).0 ≡ ok tt
unfolding try_refresh
try_refresh-ok service s w = ground arith

module _ {A : Type 0} (service : SessionService) (t : String) (handler : Option Session → Action A)
    (w : World) where
  -- A request for a protected operation without a valid token is answered with ErrInvalidToken,
  -- and changes nothing.
  pub serve-refuses :
      (e : Error)
      → (validate_token t w).0 ≡ err e
      → ((serve service false t handler w).0 ≡ err (app invalid_token))
        × ((serve service false t handler w).1.db ≡ w.db)
  unfolding serve optional_auth strict_auth require_auth
  serve-refuses e refused = elim (Bool-cases (str_eq t "")) [
    | inl empty ↦ ground arith
    | inr some_token ↦ ground (arith, validate_token-same t w)
  ]

  -- A protected operation that succeeds was run for the session of a token that is valid.
  pub serve-authentic :
      (a : A)
      → (serve service false t handler w).0 ≡ ok a
      → (s : Session) × (v : World) × ((validate_token t w).0 ≡ ok s)
        × ((handler (some s) v).0 ≡ ok a)
  unfolding serve optional_auth strict_auth require_auth try_refresh
  serve-authentic a h = elim (Result-cases (validate_token t w).0) [
    | inr (e, refused) ↦ let no = (serve-refuses e refused).0 in absurd (ground arith)
    | inl (s, valid) ↦ elim (Bool-cases (str_eq t "")) [
      | inl empty ↦ let no = empty-refused t w empty in absurd (ground arith)
      | inr some_token ↦
          let w1 = (validate_token t w).1 in
          let v = (try_refresh service s w1).1 in
          let lets : optional_auth service t w ≡ (ok (some s), v) =
            rw (some_token, optional_auth, valid)
              (>>=-after_ok (try_refresh service s) (λ _. pure (some s)) w1 tt
                (try_refresh-ok service s w1)) in
          let runs : serve service false t handler w ≡ handler (some s) v =
            >>=-after_ok (optional_auth service t) (λ ctx. strict_auth false ctx (handler ctx)) w
              (some s) (ap (λ x. x.0) lets)
            ∙ ap (λ x. handler (some s) x.1) lets in
          (s, v, valid, ap (λ x. x.0) (sym runs) ∙ h)
    ]
  ]

end_session-world : (id : ℕ) (w : World) → (end_session id w).1 ≡ (delete_session (to_int32 id) w).1
unfolding end_session
end_session-world id w = elim (Result-cases (delete_session (to_int32 id) w).0) [
  | inl (n, done) ↦
      ap (λ x. x.1)
        (>>=-after_ok (delete_session (to_int32 id)) (λ n. raise_if (n == 0) session_not_found) w n
          done)
  | inr (x, failed) ↦
      ap (λ x. x.1)
        (>>=-after_err (delete_session (to_int32 id)) (λ n. raise_if (n == 0) session_not_found) w x
          failed)
]

delete_session-rows :
    (i : ℕ) (w : World)
    → w.fails w.calls ≡ false
    → (delete_session i w).1.db.sessions ≡ delete (session_is i) w.db.sessions
unfolding delete_session statement
delete_session-rows i w up = rw (up) refl

delete_session-down :
    (i : ℕ) (w : World) → w.fails w.calls ≡ true → (delete_session i w).0 ≡ err db_failure
unfolding delete_session statement
delete_session-down i w down = rw (down) refl

end_session-down :
    (s : Session) (w : World)
    → w.fails w.calls ≡ true
    → (post_auth_logout (some s) w).0 ≡ err (app internal)
unfolding post_auth_logout end_session
end_session-down s w down =
    ap (λ x. logged_out x.0)
      (>>=-after_err (delete_session (to_int32 s.id)) (λ n. raise_if (n == 0) session_not_found) w
        db_failure (delete_session-down (to_int32 s.id) w down))

logout-world : (s : Session) (w : World) → (post_auth_logout (some s) w).1 ≡ (end_session s.id w).1
unfolding post_auth_logout
logout-world s w = refl

-- PostAuthLogout deletes the session.
logout-deletes :
    (s : Session) (w : World)
    → (post_auth_logout (some s) w).0 ≡ ok tt
    → (post_auth_logout (some s) w).1.db.sessions
      ≡ delete (session_is (to_int32 s.id)) w.db.sessions
logout-deletes s w h = elim (Bool-cases (w.fails w.calls)) [
  | inl down ↦ let no = end_session-down s w down in absurd (ground arith)
  | inr up ↦
      ap (λ x. x.db.sessions) (logout-world s w ∙ end_session-world s.id w)
      ∙ delete_session-rows (to_int32 s.id) w up
]

-- When sessions have an id and a token of their own, the session's id is an INTEGER, PostAuthLogout
-- has succeeded for it, and the next round trip does not fail, then on the database that it left a
-- request with the session's token for a protected operation is refused, and changes nothing.
pub logout-refuses :
    {A : Type 0} (service : SessionService) (t : String) (handler : Option Session → Action A)
    (s : Session) (w w' : World)
    → IsKeyed w.db
    → s.id < 4294967296
    → lookup t w ≡ some s
    → (post_auth_logout (some s) w).0 ≡ ok tt
    → w'.db ≡ (post_auth_logout (some s) w).1.db
    → w'.fails w'.calls ≡ false
    → ((serve service false t handler w').0 ≡ err (app invalid_token))
      × ((serve service false t handler w').1.db ≡ w'.db)
logout-refuses service t handler s w w' keyed small at h later up =
    let gone = ap (λ d. d.sessions) later ∙ logout-deletes s w h in
    let judged = deleted (session_is (to_int32 s.id)) t w w' keyed gone up in
    let own : session_is (to_int32 s.id) s ≡ true = ground arith in
    let none_left : drop_if (session_is (to_int32 s.id)) (some s) ≡ none = rw (own) refl in
    let refused : (validate_token t w').0 ≡ err (app invalid_token) =
      judged
      ∙ ap (λ o. verdict t w'.now (drop_if (session_is (to_int32 s.id)) o)) at
      ∙ ap (verdict t w'.now) none_left in
    serve-refuses service t handler w' (app invalid_token) refused
