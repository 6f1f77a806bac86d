-- ===== src/Session/Keys.antt =====
-- Sessions have an id and a token of their own, and what that says of lookups.
use text.Mathlib.Text.{◌==◌ as str_eq}
use text.Mathlib.TextEquality.{eq_iff}
use byte_battle.Prelude.{
  ℕ, suc, ◌⊎◌, ◌<◌, ◌≡◌, refl, sym, ◌∙◌, subst, ◌==◌, if◌then◌else◌, Bool, true, false, Option,
  none, some, List, [], ◌∷◌, ◌++◌, find?, any, update, delete, String, arith, Bool-cases, inl, inr,
  any-append,
}
use byte_battle.Db.Rows.{Db, Session, Time}
use byte_battle.ApiErr.{session_not_found}
use byte_battle.Db.Exec.{World, ok, to_int32, raise_if, statement, >>=-same_db, >>=-eq-ok}
use byte_battle.Session.{end_session}
use byte_battle.Queries.Sessions.{delete_session, drop_sessions, session_is, has_token, extended}

-- No two sessions share an id or a token, and the ids are below `next`.
abbrev pub Apart : ℕ → List Session → Type 0
Apart next [] = Unit
Apart next (s ∷ ss) =
    (s.id < next)
    × (any (session_is s.id) ss ≡ false)
    × (any (has_token s.token) ss ≡ false)
    × Apart next ss

abbrev pub IsKeyed : Db → Type 0
IsKeyed d = Apart d.next_session_id d.sessions

-- Deleting rows leaves no test true that was false.
any-delete :
    (p q : Session → Bool) (ss : List Session) → any p ss ≡ false → any p (delete q ss) ≡ false
any-delete p q [] h = refl
any-delete p q (s ∷ ss) h = ground (arith, any-delete p q ss)

pub delete-Apart :
    (next : ℕ) (p : Session → Bool) (ss : List Session) → Apart next ss → Apart next (delete p ss)
delete-Apart next p [] v = tt
delete-Apart next p (s ∷ ss) (lt, i, t, v) = elim (Bool-cases (p s)) [
  | inl hit ↦ rw hit (delete-Apart next p ss v)
  | inr miss ↦ rw miss (
    lt,
    any-delete (session_is s.id) p ss i,
    any-delete (has_token s.token) p ss t,
    delete-Apart next p ss v,
  )
]

-- An update that keeps ids and tokens.
any-extended :
    (p : Session → Bool) (q : Session → Bool) (e : Time) (now : ℕ) (ss : List Session)
    → ((s : Session) → p (extended e now s) ≡ p s)
    → any p (update q (extended e now) ss) ≡ any p ss
any-extended p q e now [] k = refl
any-extended p q e now (s ∷ ss) k = ground (arith, k s, any-extended p q e now ss k)

pub extended-Apart :
    (next i : ℕ) (e : Time) (now : ℕ) (ss : List Session)
    → Apart next ss
    → Apart next (update (session_is i) (extended e now) ss)
extended-Apart next i e now [] v = tt
extended-Apart next i e now (s ∷ ss) (lt, a, t, v) =
    let a' = any-extended (session_is s.id) (session_is i) e now ss (λ x. refl) ∙ a in
    let t' = any-extended (has_token s.token) (session_is i) e now ss (λ x. refl) ∙ t in
    elim (Bool-cases (s.id == i)) [
      | inl hit ↦ rw hit (lt, a', t', extended-Apart next i e now ss v)
      | inr miss ↦ rw miss (lt, a', t', extended-Apart next i e now ss v)
    ]

-- The id of a new session is not in use.
fresh_id : (next : ℕ) (ss : List Session) → Apart next ss → any (session_is next) ss ≡ false
fresh_id next [] v = refl
fresh_id next (s ∷ ss) (lt, a, t, v) = ground (arith, fresh_id next ss v)

str_eq-sym : (a b : String) → str_eq a b ≡ false → str_eq b a ≡ false
str_eq-sym a b h = elim (Bool-cases (str_eq b a)) [
  | inl e ↦ let t : str_eq a b ≡ true = (eq_iff a b).1 (sym ((eq_iff b a).0 e)) in absurd (cc)
  | inr e ↦ e
]

pub insert-Apart :
    (next : ℕ) (new : Session) (ss : List Session)
    → new.id ≡ next
    → any (has_token new.token) ss ≡ false
    → Apart next ss
    → Apart (suc next) (ss ++ (new ∷ []))
insert-Apart next new [] e fresh v = (omega (arith, e), refl, refl, tt)
insert-Apart next new (s ∷ ss) e fresh (lt, a, t, v) = (
  omega (arith, lt),
  ground (arith, any-append (session_is s.id) ss (new ∷ []), e, lt),
  ground (arith, any-append (has_token s.token) ss (new ∷ []), str_eq-sym s.token new.token),
  insert-Apart next new ss e (ground arith) v,
)

-- A lookup by token after a deletion.
abbrev pub drop_if : (Session → Bool) → Option Session → Option Session
drop_if p none = none
drop_if p (some s) = if p s then none else some s

pub find?-missing : (p : Session → Bool) (ss : List Session) → any p ss ≡ false → find? p ss ≡ none
find?-missing p [] h = refl
find?-missing p (s ∷ ss) h = ground (arith, find?-missing p ss)

token_moves :
    (s : Session) (t : String) (ss : List Session)
    → has_token t s ≡ true
    → any (has_token s.token) ss ≡ false
    → any (has_token t) ss ≡ false
token_moves s t ss e h = subst (λ x. any (has_token x) ss ≡ false) ((eq_iff s.token t).0 e) h

pub find?-delete_token :
    (next : ℕ) (p : Session → Bool) (t : String) (ss : List Session)
    → Apart next ss
    → find? (has_token t) (delete p ss) ≡ drop_if p (find? (has_token t) ss)
find?-delete_token next p t [] v = refl
find?-delete_token next p t (s ∷ ss) (lt, a, u, v) = elim (Bool-cases (has_token t s)) [
  | inl here ↦
      let gone = token_moves s t ss here u in
      ground (arith, find?-missing (has_token t) (delete p ss) (any-delete (has_token t) p ss gone))
  | inr there ↦ ground (arith, find?-delete_token next p t ss v)
]

-- What EndSession leaves is what its one statement leaves.
pub end_session-db :
    (id : ℕ) (w : World) → (end_session id w).1.db ≡ (delete_session (to_int32 id) w).1.db
unfolding end_session
end_session-db id w =
    >>=-same_db (delete_session (to_int32 id)) (λ n. raise_if (n == 0) session_not_found) w
      (λ n v. refl)

pub delete_session-db :
    (i : ℕ) (w : World)
    → ((delete_session i w).1.db ≡ w.db)
      ⊎ ((delete_session i w).1.db ≡ drop_sessions (session_is i) w.db)
unfolding delete_session statement
delete_session-db i w = ground arith

delete_session-ok :
    (i n : ℕ) (w : World)
    → (delete_session i w).0 ≡ ok n
    → (delete_session i w).1.db ≡ drop_sessions (session_is i) w.db
unfolding delete_session statement
delete_session-ok i n w h = ground arith

pub end_session-ok :
    (id : ℕ) (w : World)
    → (end_session id w).0 ≡ ok tt
    → (end_session id w).1.db ≡ drop_sessions (session_is (to_int32 id)) w.db
unfolding end_session
end_session-ok id w h =
    let (n, e, _) =
      >>=-eq-ok (delete_session (to_int32 id)) (λ n. raise_if (n == 0) session_not_found) w tt h in
    end_session-db id w ∙ delete_session-ok (to_int32 id) n w e
