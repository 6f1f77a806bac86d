-- ===== src/Entrance.antt =====
-- internal/service/auth_service.go: registration and login by a code that is sent by email. The
-- package regexp, bcrypt, hex.EncodeToString, fmt's %06d, crypto/rand and the mailer are parameters.
use byte_battle.Prelude.{
  ℕ, zero, suc, ◌+◌, ◌-◌, ◌*◌, ◌%◌, ltb, if◌then◌else◌, Bool, true, false, not, Option, none, some,
  List, [], ◌∷◌, String,
}
use byte_battle.ApiErr.{Code, invalid_email, invalid_code, too_many_attempts, code_recently_sent}
use byte_battle.Db.Rows.{User, Session, VerificationCode, Uuid}
use byte_battle.Db.Exec.{
  World, Action, Result, Error, ok, err, app, no_rows, no_randomness, email_taken, username_taken,
  entrance_failure, pure, raise, raise_if, ◌>>=◌, ◌>>◌, or_missing, to_int32,
}
use byte_battle.Queries.Users.{
  get_user_by_email, get_user_by_username, create_user_by_email, set_email_verified,
}
use byte_battle.Queries.VerificationCodes.{
  get_verification_code, upsert_verification_code, increment_attempts_if_below_limit,
  delete_verification_code,
}
use byte_battle.Session.{SessionService, create_session}
pub mod Spending
pub mod Attempts

-- `config.EntranceConfig`; the TTL is not negative.
pub record EntranceConfig : Type 0 where
  pub code_ttl : ℕ
  pub max_attempts : ℕ

-- 60 seconds, in nanoseconds.
abbrev pub send_cooldown : ℕ
send_cooldown = 60000000000

-- The number behind the six digits, from four random bytes.
unfoldable pub generate_verification_code : ℕ → ℕ → ℕ → ℕ → ℕ
generate_verification_code b0 b1 b2 b3 =
    ((b0 * 16777216 + b1 * 65536 + b2 * 256 + b3) % 4294967296) % 1000000

-- What the service calls; `random i` is what rand.Read gives at its i-th call, none for an error.
pub record Calls : Type 0 where
  pub is_valid_email : String → Bool
  pub six_digits : ℕ → String
  pub generate_hash : String → Option String
  pub compare_hash : String → String → Bool
  pub send_email : String → String → Bool
  pub hex : List ℕ → String
  pub user_prefix : String → String
  pub code_bytes : Option (ℕ × ℕ × ℕ × ℕ)
  pub random : ℕ → Option (List ℕ)

-- time.Now()
abbrev time_now : Action ℕ
time_now w = (ok w.now, w)

-- The error of a call, if it has one, in place of a failure.
abbrev pub attempt : {A : Type 0} → Action A → Action (Result A)
attempt m w = let (r, w') = m w in (ok r, w')

-- A call with the number of codes that it compares.
abbrev pub Counted : Type 0 → Type 0
Counted A = World → (Result A × World) × ℕ

abbrev pub uncounted : {A : Type 0} → Action A → Counted A
uncounted m w = (m w, 0)

abbrev pub then_count : {A B : Type 0} → Counted A → (A → Counted B) → Counted B
then_count m f w =
    let ((r, w'), n) = m w in
    elim r [ ok a ↦ (let (x, k) = f a w' in (x, n + k)) | err e ↦ ((err e, w'), n) ]

module _ (cfg : EntranceConfig) (ext : Calls) where
  abbrev of_bytes : Option (ℕ × ℕ × ℕ × ℕ) → Action String
  of_bytes none = raise no_randomness
  of_bytes (some (b0, b1, b2, b3)) = pure (ext.six_digits (generate_verification_code b0 b1 b2 b3))

  abbrev of_hash : Option String → Action String
  of_hash none = raise entrance_failure
  of_hash (some h) = pure h

  -- time.Until(expires) > max(CodeTTL - 60 s, 0)
  abbrev too_early : ℕ → Result VerificationCode → Bool
  too_early now (err e) = false
  too_early now (ok vc) = ltb (now + (cfg.code_ttl - send_cooldown)) vc.expires_at

  -- An error of the deletion is only logged.
  abbrev deliver : String → String → Action (Unit {0})
  deliver email code w =
      if ext.send_email email code
      then (ok tt, w)
      else (err entrance_failure, (delete_verification_code email w).1)

  unfoldable pub send_code : String → Action (Unit {0})
  send_code email = do
    raise_if (not (ext.is_valid_email email)) invalid_email
    existing ← attempt (get_verification_code email)
    now ← time_now
    raise_if (too_early now existing) code_recently_sent
    code ← of_bytes ext.code_bytes
    code_hash ← of_hash (ext.generate_hash code)
    upsert_verification_code
        (record { email = email; code_hash = code_hash; expires_at = now + cfg.code_ttl })
    deliver email code

  -- The beginning of VerifyCode: the code that is not expired, after one more attempt is counted.
  unfoldable pub claim_attempt : String → Action VerificationCode
  claim_attempt email = do
    vc ← or_missing (get_verification_code email) invalid_code
    now ← time_now
    raise_if (ltb vc.expires_at now) invalid_code
    or_missing (increment_attempts_if_below_limit email (to_int32 cfg.max_attempts))
        too_many_attempts

  abbrev pub username_of : Option (List ℕ) → Action String
  username_of none = raise no_randomness
  username_of (some bytes) = pure (ext.user_prefix (ext.hex bytes))

  -- Whether the lookup has found nobody; any other error counts as if somebody was there.
  abbrev pub is_free : Result User → Bool
  is_free (err no_rows) = true
  is_free _ = false

  -- The loop, from the i-th call of rand.Read on; with the name, the next call's number.
  unfoldable pub unique_username : ℕ → ℕ → Action (String × ℕ)
  unique_username zero i = raise entrance_failure
  unique_username (suc fuel) i = do
    username ← username_of (ext.random i)
    found ← attempt (get_user_by_username username)
    (let rest = unique_username fuel (suc i) in
        if is_free found then pure (username, suc i) else rest)

  -- What follows CreateUserByEmail, with the next turn of the loop.
  abbrev pub after_create : String → Action User → Result User → Action User
  after_create email retry (ok u) = pure u
  after_create email retry (err email_taken) = get_user_by_email email
  after_create email retry (err username_taken) = retry
  after_create email retry (err e) = raise e

  unfoldable pub create_user : ℕ → ℕ → String → Action User
  create_user zero i email = raise entrance_failure
  create_user (suc fuel) i email = do
    name ← unique_username 10 i
    created ← attempt (create_user_by_email (record { username = name.0; email = email }))
    after_create email (create_user fuel (name.1) email) created

  abbrev pub unless_found : Action User → Result User → Action User
  unless_found create (ok u) = pure u
  unless_found create (err no_rows) = create
  unless_found create (err e) = raise e

  unfoldable pub get_or_create_user : String → Action User
  get_or_create_user email = do
    found ← attempt (get_user_by_email email)
    unless_found (create_user 10 0 email) found

  -- VerifyCode after the comparison; an error of the deletion is only logged. `token_bytes` are the
  -- session's.
  unfoldable pub log_in : SessionService → Option (List ℕ) → String → Action Session
  log_in sessions token_bytes email = do
    user ← get_or_create_user email
    set_email_verified user.id
    deleted ← attempt (delete_verification_code email)
    create_session sessions ext.hex token_bytes user.id

  -- bcrypt.CompareHashAndPassword, the one call that counts as a comparison.
  abbrev pub compare : String → String → Counted (Unit {0})
  compare code_hash code w = (raise_if (not (ext.compare_hash code_hash code)) invalid_code w, 1)

  -- `VerifyCode`, with the number of codes that it compares with a hash.
  unfoldable pub verify_code : SessionService → Option (List ℕ) → String → String → Counted Session
  verify_code sessions token_bytes email code = then_count (uncounted (claim_attempt email)) λ vc.
      then_count (compare vc.code_hash code) λ _. uncounted (log_in sessions token_bytes email)
