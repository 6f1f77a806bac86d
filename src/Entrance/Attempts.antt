-- ===== src/Entrance/Attempts.antt =====
-- How often a code can be guessed, and by what.
use byte_battle.Prelude.{
  ℕ, suc, ◌+◌, ◌≤◌, ◌≡◌, refl, sym, ap, ◌∙◌, inl, inr, Bool-cases, ltb, true, false, Option, none,
  some, List, [], ◌∷◌, String, update, arith,
}
use byte_battle.Db.Rows.{Session, VerificationCode}
use byte_battle.Db.Exec.{World, Result-cases, ok, err, app, Error, statement, to_int32}
use byte_battle.Queries.VerificationCodes.{
  find_code, email_is, below, tried_once_more, with_codes, get_verification_code,
  increment_attempts_if_below_limit,
}
use byte_battle.ApiErr.{invalid_code}
use byte_battle.Entrance.{EntranceConfig, Calls, claim_attempt, verify_code, log_in, then_count}
use byte_battle.Session.{SessionService}
use byte_battle.Game.Refine.Found.{found_by}
use byte_battle.Entrance.Spending.{attempts_left, log_in-Spends, find_code-tried}

module _ (cfg : EntranceConfig) (ext : Calls) (email : String) where
  -- An attempt that is counted finds the email's code, not expired and below the limit.
  claimed :
      (w : World) (vc b : VerificationCode)
      → find_code email w.db ≡ some b
      → (claim_attempt cfg ext email w).0 ≡ ok vc
      → (ltb b.expires_at w.now ≡ false)
        × (below b.attempts (to_int32 cfg.max_attempts) ≡ true)
        × (vc ≡ tried_once_more b)
        × ((claim_attempt cfg ext email w).1.db
            ≡ with_codes (update (email_is email) tried_once_more w.db.verification_codes) w.db)
  unfolding claim_attempt get_verification_code increment_attempts_if_below_limit statement
  claimed w vc b f h = ground arith

  not_claimed :
      (w : World) (x : Error)
      → (claim_attempt cfg ext email w).0 ≡ err x
      → (claim_attempt cfg ext email w).1.db ≡ w.db
  unfolding claim_attempt get_verification_code increment_attempts_if_below_limit statement
  not_claimed w x h = ground arith

  claim_found :
      (w : World) (vc : VerificationCode)
      → (claim_attempt cfg ext email w).0 ≡ ok vc
      → ¬ (find_code email w.db ≡ none)
  unfolding claim_attempt get_verification_code statement
  claim_found w vc h gone = ground arith

  -- What an attempt costs.
  claim-cost :
      (w : World) (vc : VerificationCode)
      → (claim_attempt cfg ext email w).0 ≡ ok vc
      → suc (attempts_left (to_int32 cfg.max_attempts) email (claim_attempt cfg ext email w).1.db)
        ≡ attempts_left (to_int32 cfg.max_attempts) email w.db
  claim-cost w vc h =
      let (b, f) = found_by _ (claim_found w vc h) in
      let (fresh, allowed, is_vc, db) = claimed w vc b f h in
      let after : find_code email (claim_attempt cfg ext email w).1.db ≡ some (tried_once_more b) =
        rw (db) (find_code-tried email w.db.verification_codes b f) in
      rw (f, after) (ground arith)

  module _ (service : SessionService) (bytes : Option (List ℕ)) where
    -- The number of comparisons of a code with a hash that VerifyCode makes in a row of calls at given
    -- times with given codes.
    unfoldable pub comparisons : List (ℕ × String) → World → ℕ
    comparisons [] w = 0
    comparisons ((now, code) ∷ guesses) w =
        let ((r, w'), n) = verify_code cfg ext service bytes email code (record w { now = now }) in
        n + comparisons guesses w'

    -- The three ways of VerifyCode.
    refused :
        (code : String) (w : World) (x : Error)
        → (claim_attempt cfg ext email w).0 ≡ err x
        → verify_code cfg ext service bytes email code w
          ≡ ((err x, (claim_attempt cfg ext email w).1), 0)
    unfolding verify_code
    refused code w x e = rw (e, then_count) refl

    mismatched :
        (code : String) (w : World) (vc : VerificationCode)
        → (claim_attempt cfg ext email w).0 ≡ ok vc
        → ext.compare_hash vc.code_hash code ≡ false
        → verify_code cfg ext service bytes email code w
          ≡ ((err (app invalid_code), (claim_attempt cfg ext email w).1), 1)
    unfolding verify_code
    mismatched code w vc e other = rw (e, other, then_count) refl

    matched :
        (code : String) (w : World) (vc : VerificationCode)
        → (claim_attempt cfg ext email w).0 ≡ ok vc
        → ext.compare_hash vc.code_hash code ≡ true
        → verify_code cfg ext service bytes email code w
          ≡ (log_in cfg ext service bytes email (claim_attempt cfg ext email w).1, 1)
    unfolding verify_code
    matched code w vc e same = rw (e, same, then_count) refl

    verify-cost :
        (code : String) (w : World)
        → let ((r, w'), n) = verify_code cfg ext service bytes email code w in
          n + attempts_left (to_int32 cfg.max_attempts) email w'.db
          ≤ attempts_left (to_int32 cfg.max_attempts) email w.db
    verify-cost code w = elim (Result-cases (claim_attempt cfg ext email w).0) [
      | inl (vc, e) ↦ elim (Bool-cases (ext.compare_hash vc.code_hash code)) [
        | inl same ↦ rw (matched code w vc e same) (
            omega (
              arith,
              claim-cost w vc e,
              log_in-Spends cfg ext (to_int32 cfg.max_attempts) email service bytes
                  (claim_attempt cfg ext email w).1,
            ))
        | inr other ↦ rw (mismatched code w vc e other) (omega (arith, claim-cost w vc e))
      ]
      | inr (x, e) ↦ rw (refused code w x e, not_claimed w x e) (omega arith)
    ]

    -- However often VerifyCode is called for an email, at whatever times and with whatever codes and
    -- failures, without another request in between, it compares no more codes with the hash than
    -- attempts are left of the limit.
    pub comparisons-attempts_left :
        (guesses : List (ℕ × String)) (w : World)
        → comparisons guesses w ≤ attempts_left (to_int32 cfg.max_attempts) email w.db
    unfolding comparisons
    comparisons-attempts_left [] w = omega arith
    comparisons-attempts_left ((now, code) ∷ guesses) w =
        let at : World = record w { now = now } in
        omega (
          arith,
          verify-cost code at,
          comparisons-attempts_left guesses (verify_code cfg ext service bytes email code at).0.1,
        )

    -- VerifyCode gives a session only for an email with a code that has not expired and is below the
    -- limit of attempts, and only if the hash of that code matches the code given.
    pub verify_code-ok :
        (code : String) (w : World) (s : Session)
        → (verify_code cfg ext service bytes email code w).0.0 ≡ ok s
        → (vc : VerificationCode) × (find_code email w.db ≡ some vc)
          × (ltb vc.expires_at w.now ≡ false)
          × (below vc.attempts (to_int32 cfg.max_attempts) ≡ true)
          × (ext.compare_hash vc.code_hash code ≡ true)
    verify_code-ok code w s h = elim (Result-cases (claim_attempt cfg ext email w).0) [
      | inr (x, e) ↦
          let no : (verify_code cfg ext service bytes email code w).0.0 ≡ err x =
            ap (λ r. r.0.0) (refused code w x e) in
          absurd (cc)
      | inl (vc, e) ↦ elim (Bool-cases (ext.compare_hash vc.code_hash code)) [
        | inr other ↦
            let no : (verify_code cfg ext service bytes email code w).0.0 ≡ err (app invalid_code) =
              ap (λ r. r.0.0) (mismatched code w vc e other) in
            absurd (cc)
        | inl same ↦
            let (b, f) = found_by _ (claim_found w vc e) in
            let (fresh, allowed, is_vc, db) = claimed w vc b f e in
            (b, f, fresh, allowed, ap (λ v. ext.compare_hash v.code_hash code) (sym is_vc) ∙ same)
      ]
    ]
