-- ===== src/Entrance/Spending.antt =====
-- Calls of the entrance that leave an email's code no more attempts than before.
use byte_battle.Prelude.{
  ℕ, zero, suc, ◌-◌, ◌≤◌, ◌≡◌, refl, ap, inl, inr, if◌then◌else◌, Option, none, some, List, [], ◌∷◌,
  String, find?, update, delete, arith, Bool-cases,
}
use byte_battle.Db.Rows.{Db, Session, VerificationCode}
use byte_battle.Db.Exec.{
  World, Action, Result, Result-cases, ok, err, app, no_rows, constraint, db_failure,
  game_already_finished, no_randomness, no_problem_files, email_taken, username_taken,
  entrance_failure, no_slug, invalid_name, pure, ◌>>=◌, ◌>>◌, statement,
}
use byte_battle.Queries.VerificationCodes.{
  find_code, email_is, tried_once_more, delete_verification_code,
}
use byte_battle.Db.Reads.{Reads, >>=-Reads, statement-Reads}
use byte_battle.Db.Rows.{Uuid, User}
use byte_battle.Queries.Users.{
  CreateUserByEmailParams, create_user_by_email, set_email_verified, get_user_by_email,
  get_user_by_username,
}
use byte_battle.Entrance.{
  EntranceConfig, Calls, unique_username, create_user, get_or_create_user, after_create, attempt,
  username_of, unless_found, is_free, log_in,
}
use byte_battle.Session.{SessionService, create_session, generate_token}
use byte_battle.Queries.Sessions as Sessions

-- The attempts that an email's code still has.
abbrev pub left_of : ℕ → Option VerificationCode → ℕ
left_of limit none = 0
left_of limit (some vc) = limit - vc.attempts

abbrev pub attempts_left : ℕ → String → Db → ℕ
attempts_left limit email d = left_of limit (find_code email d)

-- What the increment leaves of the email's code.
pub find_code-tried :
    (email : String) (vcs : List VerificationCode) (vc : VerificationCode)
    → find? (email_is email) vcs ≡ some vc
    → find? (email_is email) (update (email_is email) tried_once_more vcs)
      ≡ some (tried_once_more vc)
find_code-tried email [] vc h = cc
find_code-tried email (x ∷ vcs) vc h = ground (arith, find_code-tried email vcs vc)

-- Calls that leave an email's code no more attempts than before.
abbrev Spends : {A : Type 0} → ℕ → String → Action A → Type 0
Spends limit email m =
    (w : World) → attempts_left limit email (m w).1.db ≤ attempts_left limit email w.db

>>=-Spends :
    {A B : Type 0} (limit : ℕ) (email : String) (m : Action A) (f : A → Action B)
    → Spends limit email m
    → ((a : A) → Spends limit email (f a))
    → Spends limit email (m >>= f)
>>=-Spends limit email m f s ss w = elim (Result-cases (m w).0) [
  | inl (a, e) ↦
      let run : (m >>= f) w ≡ f a (m w).1 = rw (e, ◌>>=◌) refl in
      rw (run) (omega (arith, s w, ss a (m w).1))
  | inr (x, e) ↦ let run : (m >>= f) w ≡ (err x, (m w).1) = rw (e, ◌>>=◌) refl in rw (run) (s w)
]

same_codes :
    (limit : ℕ) (email : String) (d e : Db)
    → e.verification_codes ≡ d.verification_codes
    → attempts_left limit email e ≤ attempts_left limit email d
same_codes limit email d e h = rw (h) (omega arith)

Reads-Spends :
    {A : Type 0} (limit : ℕ) (email : String) (m : Action A) → Reads m → Spends limit email m
Reads-Spends limit email m r w =
    same_codes limit email w.db (m w).1.db (ap (λ d. d.verification_codes) (r w))

find_code-deleted :
    (email : String) (vcs : List VerificationCode)
    → find? (email_is email) (delete (email_is email) vcs) ≡ none
find_code-deleted email [] = refl
find_code-deleted email (x ∷ vcs) = ground (arith, find_code-deleted email vcs)

delete-Spends : (limit : ℕ) (email : String) → Spends limit email (delete_verification_code email)
unfolding delete_verification_code statement
delete-Spends limit email w = elim (Bool-cases (w.fails w.calls)) [
  | inl down ↦ rw (down) (omega arith)
  | inr up ↦ rw (up, find_code-deleted email w.db.verification_codes) (omega arith)
]

create_user_by_email-codes :
    (arg : CreateUserByEmailParams) (w : World)
    → (create_user_by_email arg w).1.db.verification_codes ≡ w.db.verification_codes
unfolding create_user_by_email statement
create_user_by_email-codes arg w = ground arith

set_email_verified-Spends :
    (limit : ℕ) (email : String) (id : Uuid) → Spends limit email (set_email_verified id)
unfolding set_email_verified statement
set_email_verified-Spends limit email id w = elim (Bool-cases (w.fails w.calls)) [
  | inl down ↦ rw (down) (omega arith)
  | inr up ↦ rw (up) (omega arith)
]

create_session-codes :
    (service : SessionService) (hex : List ℕ → String) (bytes : Option (List ℕ)) (u : Uuid)
    (w : World)
    → (create_session service hex bytes u w).1.db.verification_codes ≡ w.db.verification_codes
unfolding create_session generate_token Sessions.create_session statement
create_session-codes service hex none u w = refl
create_session-codes service hex (some bytes) u w = ground arith

module _ (cfg : EntranceConfig) (ext : Calls) (limit : ℕ) (email : String) where
  get_user_by_email-Reads : (e : String) → Reads (get_user_by_email e)
  unfolding get_user_by_email
  get_user_by_email-Reads e w = statement-Reads _ (λ v r d h. ground arith) w

  get_user_by_username-Reads : (e : String) → Reads (get_user_by_username e)
  unfolding get_user_by_username
  get_user_by_username-Reads e w = statement-Reads _ (λ v r d h. ground arith) w

  username_of-Reads : (bytes : Option (List ℕ)) → Reads (username_of cfg ext bytes)
  username_of-Reads none w = refl
  username_of-Reads (some bytes) w = refl

  unique_username-Reads : (fuel i : ℕ) → Reads (unique_username cfg ext fuel i)
  unfolding unique_username
  unique_username-Reads zero i w = refl
  unique_username-Reads (suc fuel) i w =
      >>=-Reads (username_of cfg ext (ext.random i)) look_up (username_of-Reads (ext.random i))
        (λ name.
          >>=-Reads (attempt (get_user_by_username name)) (λ found. choose name found)
            (get_user_by_username-Reads name)
            (chosen-Reads (unique_username-Reads fuel (suc i)) name))
        w
    where
      choose : String → Result User → Action (String × ℕ)
      choose name found =
          if is_free cfg ext found then pure (name, suc i) else unique_username cfg ext fuel (suc i)

      look_up : String → Action (String × ℕ)
      look_up name = attempt (get_user_by_username name) >>= λ found. choose name found

      chosen-Reads :
          Reads (unique_username cfg ext fuel (suc i))
          → (name : String) (found : Result User) → Reads (choose name found)
      chosen-Reads again name found = elim (Bool-cases (is_free cfg ext found)) [
        | inl free ↦ rw (free) (λ v. refl)
        | inr taken ↦ rw (taken) again
      ]

  after_create-Spends :
      (r : Result User) (retry : Action User)
      → Spends limit email retry
      → Spends limit email (after_create cfg ext email retry r)
  after_create-Spends (ok u) retry s w = omega arith
  after_create-Spends (err email_taken) retry s w =
      Reads-Spends limit email (get_user_by_email email) (get_user_by_email-Reads email) w
  after_create-Spends (err username_taken) retry s w = s w
  after_create-Spends (err (app c)) retry s w = omega arith
  after_create-Spends (err no_rows) retry s w = omega arith
  after_create-Spends (err constraint) retry s w = omega arith
  after_create-Spends (err db_failure) retry s w = omega arith
  after_create-Spends (err game_already_finished) retry s w = omega arith
  after_create-Spends (err no_randomness) retry s w = omega arith
  after_create-Spends (err no_problem_files) retry s w = omega arith
  after_create-Spends (err entrance_failure) retry s w = omega arith
  after_create-Spends (err no_slug) retry s w = omega arith
  after_create-Spends (err invalid_name) retry s w = omega arith

  create_user-Spends : (fuel i : ℕ) → Spends limit email (create_user cfg ext fuel i email)
  unfolding create_user
  create_user-Spends zero i w = omega arith
  create_user-Spends (suc fuel) i w =
      >>=-Spends limit email (unique_username cfg ext 10 i)
        (λ name. insert name >>= λ r. next name r)
        (Reads-Spends limit email (unique_username cfg ext 10 i) (unique_username-Reads 10 i))
        (λ name.
          >>=-Spends limit email (insert name) (λ r. next name r)
            (λ v.
              same_codes limit email v.db (insert name v).1.db
                (create_user_by_email-codes (params name) v))
            (λ r.
              after_create-Spends r (create_user cfg ext fuel (name.1) email)
                (create_user-Spends fuel (name.1))))
        w
    where
      params : String × ℕ → CreateUserByEmailParams
      params name = record { username = name.0; email = email }

      insert : String × ℕ → Action (Result User)
      insert name = attempt (create_user_by_email (params name))

      next : String × ℕ → Result User → Action User
      next name r = after_create cfg ext email (create_user cfg ext fuel (name.1) email) r

  unless_found-Spends :
      (r : Result User) (create : Action User)
      → Spends limit email create
      → Spends limit email (unless_found cfg ext create r)
  unless_found-Spends (ok u) create s w = omega arith
  unless_found-Spends (err no_rows) create s w = s w
  unless_found-Spends (err email_taken) create s w = omega arith
  unless_found-Spends (err username_taken) create s w = omega arith
  unless_found-Spends (err (app c)) create s w = omega arith
  unless_found-Spends (err constraint) create s w = omega arith
  unless_found-Spends (err db_failure) create s w = omega arith
  unless_found-Spends (err game_already_finished) create s w = omega arith
  unless_found-Spends (err no_randomness) create s w = omega arith
  unless_found-Spends (err no_problem_files) create s w = omega arith
  unless_found-Spends (err entrance_failure) create s w = omega arith
  unless_found-Spends (err no_slug) create s w = omega arith
  unless_found-Spends (err invalid_name) create s w = omega arith

  get_or_create_user-Spends : Spends limit email (get_or_create_user cfg ext email)
  unfolding get_or_create_user
  get_or_create_user-Spends w =
      >>=-Spends limit email (attempt (get_user_by_email email))
        (λ r. unless_found cfg ext (create_user cfg ext 10 0 email) r)
        (Reads-Spends limit email (attempt (get_user_by_email email))
          (get_user_by_email-Reads email))
        (λ r. unless_found-Spends r (create_user cfg ext 10 0 email) (create_user-Spends 10 0)) w

  module _ (service : SessionService) (bytes : Option (List ℕ)) where
    pub log_in-Spends : Spends limit email (log_in cfg ext service bytes email)
    unfolding log_in
    log_in-Spends w =
        >>=-Spends limit email (get_or_create_user cfg ext email) finish get_or_create_user-Spends
          (λ u.
            >>=-Spends limit email (set_email_verified u.id) (λ _. clean_up u)
              (set_email_verified-Spends limit email u.id)
              (λ _.
                >>=-Spends limit email (attempt (delete_verification_code email)) (λ _. session u)
                  (delete-Spends limit email)
                  (λ _ v.
                    same_codes limit email v.db (session u v).1.db
                      (create_session-codes service ext.hex bytes u.id v))))
          w
      where
        session : User → Action Session
        session u = create_session service ext.hex bytes u.id

        clean_up : User → Action Session
        clean_up u = attempt (delete_verification_code email) >>= λ _. session u

        finish : User → Action Session
        finish u = set_email_verified u.id >> clean_up u
