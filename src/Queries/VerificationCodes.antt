-- ===== src/Queries/VerificationCodes.antt =====
-- internal/db/sqlc/verification_codes.sql.go
use text.Mathlib.Text.{◌==◌ as str_eq}
use byte_battle.Prelude.{
  ℕ, suc, ltb, if◌then◌else◌, Bool, ◌&&◌, Option, none, some, List, [], ◌∷◌, ◌++◌, find?, update,
  delete, String,
}
use byte_battle.Db.Rows.{Db, VerificationCode, Time}
use byte_battle.Db.Exec.{Action, Result, ok, err, no_rows, statement, query, one}

-- WHERE email = $1
abbrev pub email_is : String → VerificationCode → Bool
email_is email vc = str_eq vc.email email

abbrev pub find_code : String → Db → Option VerificationCode
find_code email d = find? (email_is email) d.verification_codes

abbrev pub with_codes : List VerificationCode → Db → Db
with_codes vcs d = record d { verification_codes = vcs }

unfoldable pub delete_verification_code : String → Action (Unit {0})
delete_verification_code email =
    statement λ w. ok (tt, with_codes (delete (email_is email) w.db.verification_codes) w.db)

unfoldable pub get_verification_code : String → Action VerificationCode
get_verification_code email = query λ d. one (find_code email d)

-- attempts < $2 on an int32 as a bit pattern; attempts is not negative.
abbrev pub below : ℕ → ℕ → Bool
below attempts limit = ltb limit 2147483648 && ltb attempts limit

abbrev pub tried_once_more : VerificationCode → VerificationCode
tried_once_more vc = record vc { attempts = suc vc.attempts }

abbrev counted : String → Db → VerificationCode → Result (VerificationCode × Db)
counted email d vc = ok (
  tried_once_more vc,
  with_codes (update (email_is email) tried_once_more d.verification_codes) d,
)

-- The email is the primary key, so one row at most is updated.
unfoldable pub increment_attempts_if_below_limit : String → ℕ → Action VerificationCode
increment_attempts_if_below_limit email limit = statement λ w. elim (find_code email w.db) [
  | none ↦ err no_rows
  | some vc ↦ if below vc.attempts limit then counted email w.db vc else err no_rows
]

pub record UpsertVerificationCodeParams : Type 0 where
  pub email : String
  pub code_hash : String
  pub expires_at : Time

abbrev new_code : UpsertVerificationCodeParams → ℕ → VerificationCode
new_code arg now = record {
  email = arg.email;
  code_hash = arg.code_hash;
  expires_at = arg.expires_at;
  attempts = 0;
  created_at = now;
}

abbrev renewed : UpsertVerificationCodeParams → VerificationCode → VerificationCode
renewed arg vc = record vc { code_hash = arg.code_hash; expires_at = arg.expires_at; attempts = 0 }

unfoldable pub upsert_verification_code : UpsertVerificationCodeParams → Action VerificationCode
upsert_verification_code arg = statement λ w. elim (find_code arg.email w.db) [
  | none ↦
      ok
        (new_code arg w.now, with_codes (w.db.verification_codes ++ (new_code arg w.now ∷ [])) w.db)
  | some vc ↦ ok (
    renewed arg vc,
    with_codes (update (email_is arg.email) (renewed arg) w.db.verification_codes) w.db,
  )
]
