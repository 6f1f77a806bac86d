-- ===== src/Session/Refresh.antt =====
-- What TryRefresh does to the session of a request.
use byte_battle.Prelude.{
  ℕ, ◌+◌, ◌/◌, ◌≤◌, ◌≡◌, refl, ltb, false, some, find?, arith, find_key-update, Bool-cases, inl,
  inr,
}
use byte_battle.Db.Rows.{Session, Time}
use byte_battle.Db.Exec.{World, statement, to_int32}
use byte_battle.Queries.Sessions.{session_is, extended, update_session_expiry, extend_session}
use byte_battle.Session.{SessionService, try_refresh, refresh_session}

update_session_expiry-db :
    (i : ℕ) (e : Time) (w : World) (s : Session)
    → find? (session_is i) w.db.sessions ≡ some s
    → w.fails w.calls ≡ false
    → (update_session_expiry i e w).1.db ≡ extend_session i e w.now w.db
unfolding update_session_expiry statement
update_session_expiry-db i e w s found up = ground arith

-- When the session is in the table and the round trip does not fail, TryRefresh leaves it there
-- with its token, not expiring earlier than before, and with at least half of the session duration
-- left.
pub try_refresh-extends :
    (service : SessionService) (w : World) (s : Session)
    → find? (session_is (to_int32 s.id)) w.db.sessions ≡ some s
    → w.fails w.calls ≡ false
    → (r : Session) × (find? (session_is (to_int32 s.id)) (try_refresh service s w).1.db.sessions
        ≡ some r)
      × (r.token ≡ s.token)
      × (s.expires_at ≤ r.expires_at)
      × (w.now + service.session_duration / 2 ≤ r.expires_at)
unfolding try_refresh refresh_session
try_refresh-extends service w s found up =
    let i = to_int32 s.id in
    let e = w.now + service.session_duration in
    elim (Bool-cases (ltb (w.now + service.session_duration / 2) s.expires_at)) [
      | inl far ↦ rw (far, try_refresh) (s, found, refl, omega arith, ground arith)
      | inr near ↦
          let later = update_session_expiry-db i e w s found up in
          rw (near, try_refresh)
            (rw later (
              extended e w.now s,
              ground (
                arith,
                found,
                find_key-update (λ x. x.id) (extended e w.now) i i w.db.sessions (λ x. refl),
              ),
              refl,
              ground arith,
              omega arith,
            ))
    ]
