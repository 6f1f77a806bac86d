-- ===== src/Session/Requests.antt =====
-- The requests that change sessions, and a server that handles them one after another.
use byte_battle.Prelude.{
  ℕ, ◌+◌, ◌/◌, ltb, ◌⊎◌, inl, inr, Bool-cases, ◌≡◌, refl, sym, subst, Option, none, some, List, [],
  ◌∷◌, String, arith, any, false,
}
use byte_battle.Db.Rows.{Db, Session, Uuid, Time}
use byte_battle.Db.Exec.{World, ok, statement, to_int32}
use byte_battle.Queries.Sessions.{
  update_session_expiry, delete_session, delete_sessions_by_user_id, delete_expired_sessions,
  drop_sessions, has_token, session_is, belongs_to, is_expired, CreateSessionParams, new_session,
  insert_session, extend_session,
}
use byte_battle.Queries.Sessions as Queries
use byte_battle.Session.{
  SessionService, validate_token, generate_token, create_session, refresh_session, try_refresh,
  end_session, end_all_user_sessions, cleanup_expired,
}
use byte_battle.Session.Validity.{verdict, lookup, end_session-validate_token}
use byte_battle.Session.Keys.{
  drop_if, IsKeyed, delete-Apart, extended-Apart, insert-Apart, end_session-db, delete_session-db,
}

pub data Request : Type 0 where
  create : Option (List ℕ) → Uuid → Request
  refresh end : ℕ → Request
  touch : Session → Request
  end_all : Uuid → Request
  cleanup : Request

-- A database that is as it was, or that has lost some sessions.
kept_or : {d e f : Db} → (e ≡ d) ⊎ (e ≡ f) → IsKeyed d → IsKeyed f → IsKeyed e
kept_or (inl e) v v' = subst IsKeyed (sym e) v
kept_or (inr e) v v' = subst IsKeyed (sym e) v'

inserted-IsKeyed :
    (arg : CreateSessionParams) (w : World)
    → IsKeyed w.db
    → IsKeyed (Queries.create_session arg w).1.db
unfolding Queries.create_session statement
inserted-IsKeyed arg w v = elim (cases arg w) [
  | inl same ↦ subst IsKeyed (sym same) v
  | inr (fresh, e) ↦
      subst IsKeyed (sym e)
        (insert-Apart w.db.next_session_id (new_session arg w) w.db.sessions refl fresh v)
]
  where
    cases :
        (arg : CreateSessionParams) (w : World)
        → ((Queries.create_session arg w).1.db ≡ w.db)
          ⊎ ((any (has_token arg.token) w.db.sessions ≡ false)
              × ((Queries.create_session arg w).1.db ≡ insert_session (new_session arg w) w.db))
    cases arg w = ground arith

update-IsKeyed :
    (i : ℕ) (e : Time) (w : World) → IsKeyed w.db → IsKeyed (update_session_expiry i e w).1.db
unfolding update_session_expiry statement
update-IsKeyed i e w v =
    kept_or (cases i e w) v (extended-Apart w.db.next_session_id i e w.now w.db.sessions v)
  where
    cases :
        (i : ℕ) (e : Time) (w : World)
        → ((update_session_expiry i e w).1.db ≡ w.db)
          ⊎ ((update_session_expiry i e w).1.db ≡ extend_session i e w.now w.db)
    cases i e w = ground arith

ended-IsKeyed : (id : ℕ) (w : World) → IsKeyed w.db → IsKeyed (end_session id w).1.db
ended-IsKeyed id w v = subst IsKeyed (sym (end_session-db id w)) (
    kept_or (delete_session-db (to_int32 id) w) v
      (delete-Apart w.db.next_session_id (session_is (to_int32 id)) w.db.sessions v))

all_ended-IsKeyed :
    (u : Uuid) (w : World) → IsKeyed w.db → IsKeyed (delete_sessions_by_user_id u w).1.db
unfolding delete_sessions_by_user_id statement
all_ended-IsKeyed u w v =
    kept_or (cases u w) v (delete-Apart w.db.next_session_id (belongs_to u) w.db.sessions v)
  where
    cases :
        (u : Uuid) (w : World)
        → ((delete_sessions_by_user_id u w).1.db ≡ w.db)
          ⊎ ((delete_sessions_by_user_id u w).1.db ≡ drop_sessions (belongs_to u) w.db)
    cases u w = ground arith

cleaned-IsKeyed : (w : World) → IsKeyed w.db → IsKeyed (delete_expired_sessions w).1.db
unfolding delete_expired_sessions statement
cleaned-IsKeyed w v =
    kept_or (cases w) v (delete-Apart w.db.next_session_id (is_expired w.now) w.db.sessions v)
  where
    cases :
        (w : World)
        → ((delete_expired_sessions w).1.db ≡ w.db)
          ⊎ ((delete_expired_sessions w).1.db ≡ drop_sessions (is_expired w.now) w.db)
    cases w = ground arith

module _ (service : SessionService) (hex : List ℕ → String) where
  -- The world after a request, whatever it returns.
  unfoldable pub handle : Request → World → World
  handle (create bytes user) w = (create_session service hex bytes user w).1
  handle (refresh id) w = (refresh_session service id w).1
  handle (touch session) w = (try_refresh service session w).1
  handle (end id) w = (end_session id w).1
  handle (end_all user) w = (end_all_user_sessions user w).1
  handle cleanup w = (cleanup_expired w).1

  unfoldable pub serve : List (ℕ × Request) → World → World
  serve [] w = w
  serve ((now, r) ∷ rs) w = serve rs (handle r (record w { now = now }))

  handle-IsKeyed : (r : Request) (w : World) → IsKeyed w.db → IsKeyed (handle r w).db
  unfolding handle create_session generate_token try_refresh refresh_session end_session
      end_all_user_sessions cleanup_expired
  handle-IsKeyed (create none user) w v = v
  handle-IsKeyed (create (some bytes) user) w v = inserted-IsKeyed _ w v
  handle-IsKeyed (refresh id) w v = update-IsKeyed (to_int32 id) _ w v
  handle-IsKeyed (touch s) w v =
      elim (Bool-cases (ltb (w.now + service.session_duration / 2) s.expires_at)) [
        | inl far ↦ rw (far, handle) v
        | inr near ↦ rw (near, handle) (update-IsKeyed (to_int32 s.id) _ w v)
      ]
  handle-IsKeyed (end id) w v = ended-IsKeyed id w v
  handle-IsKeyed (end_all user) w v = all_ended-IsKeyed user w v
  handle-IsKeyed cleanup w v = cleaned-IsKeyed w v

  -- From a database where sessions have an id and a token of their own, any requests, with any
  -- round trips failing and any random bytes, keep it so.
  serve-IsKeyed : (rs : List (ℕ × Request)) (w : World) → IsKeyed w.db → IsKeyed (serve rs w).db
  unfolding serve
  serve-IsKeyed [] w v = v
  serve-IsKeyed ((now, r) ∷ rs) w v =
      serve-IsKeyed rs (handle r (record w { now = now }))
        (handle-IsKeyed r (record w { now = now }) v)

  -- When a server that starts with no sessions has handled any requests, with any round trips failing
  -- and any random bytes, EndSession then succeeds, and the next round trip does not fail on the
  -- database that it left, ValidateToken judges each token as before, but refuses that of the session
  -- that was ended as invalid.
  pub serve-end_session :
      (rs : List (ℕ × Request)) (t : String) (id : ℕ) (w w' : World)
      → w.db.sessions ≡ []
      → (end_session id (serve rs w)).0 ≡ ok tt
      → w'.db ≡ (end_session id (serve rs w)).1.db
      → w'.fails w'.calls ≡ false
      → (validate_token t w').0
        ≡ verdict t w'.now (drop_if (session_is (to_int32 id)) (lookup t (serve rs w)))
  serve-end_session rs t id w w' empty ended later up =
      let keyed : IsKeyed w.db = rw (empty) tt in
      end_session-validate_token t (serve rs w) w' (serve-IsKeyed rs w keyed) up id ended later
