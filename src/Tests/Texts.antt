-- ===== src/Tests/Texts.antt =====
-- The problems' texts and archives, and the entrance, on the data.
use byte_battle.Prelude.{
  ℕ, ◌+◌, ◌≤◌, ◌≡◌, ◌↔◌, refl, ltb, leb, if◌then◌else◌, Bool, false, true, some, Option, List, [],
  ◌∷◌, String, arith, ◌++◌,
}
use byte_battle.Prelude.Int.{pos}
use byte_battle.Db.Rows.{Session, VerificationCode}
use byte_battle.Db.Exec.{World, ok, to_int32}
use byte_battle.Problem.{Text, Manifest}
use byte_battle.Problem.Output.{matches, is_nil}
use byte_battle.Problem.Matching.{Same, matches-Same}
use byte_battle.Problem.Kebab.{title_to_kebab}
use byte_battle.Problem.Slugs.{IsSlug, title_to_kebab-IsSlug}
use byte_battle.Problem.Archive.{Entry, regular, directory, extract_archive, max_extracted_bytes}
use byte_battle.Problem.Extraction.{AllInside, written, extract_archive-bounds}
use byte_battle.Entrance.{EntranceConfig, Calls, verify_code}
use byte_battle.Entrance.Spending.{attempts_left}
use byte_battle.Entrance.Attempts.{comparisons, comparisons-attempts_left, verify_code-ok}
use byte_battle.Queries.VerificationCodes.{find_code, below}
use byte_battle.Session.{SessionService}
use byte_battle.Tests.Data.{fresh}

-- "1 \n" and "1".
matches-Same_example :
    (matches (49 ∷ 32 ∷ 10 ∷ []) (49 ∷ []) ≡ true) ↔ Same (49 ∷ 32 ∷ 10 ∷ []) (49 ∷ [])
matches-Same_example = matches-Same (49 ∷ 32 ∷ 10 ∷ []) (49 ∷ [])

test-matches : matches (49 ∷ 32 ∷ 10 ∷ []) (49 ∷ []) ≡ true
unfolding matches byte_battle.Problem.Output.normalize_output byte_battle.Problem.Output.trim_right
    byte_battle.Problem.Output.join byte_battle.Problem.Output.split
test-matches = refl

-- A leading blank counts.
test-leading : matches (32 ∷ 49 ∷ []) (49 ∷ []) ≡ false
unfolding matches byte_battle.Problem.Output.normalize_output byte_battle.Problem.Output.trim_right
    byte_battle.Problem.Output.join byte_battle.Problem.Output.split
test-leading = refl

abbrev is_letter : ℕ → Bool
is_letter c = leb 65 c

abbrev is_digit : ℕ → Bool
is_digit c = ltb c 58

abbrev to_lower : ℕ → ℕ
to_lower c = if ltb c 91 then c + 32 else c

-- " Ab "
abbrev title : Text
title = 32 ∷ 65 ∷ 98 ∷ 32 ∷ []

title_to_kebab-IsSlug_example : IsSlug (title_to_kebab is_letter is_digit to_lower title)
title_to_kebab-IsSlug_example = title_to_kebab-IsSlug is_letter is_digit to_lower title

abbrev join_path : Text → Text → Text
join_path d n = d ++ (47 ∷ n)

abbrev copy : Entry → ℕ → ℕ × Bool
copy e limit = (if leb e.size limit then e.size else limit, false)

abbrev archive_entries : Text → Option (List (Option Entry))
archive_entries bytes = some (
    some (record { name = 97 ∷ []; kind = directory; size = 0 })
    ∷ some (record { name = 98 ∷ []; kind = regular; size = 300000000 })
    ∷ [])

extract_archive-bounds_example :
    let r =
      extract_archive
        (λ n. n)
        join_path
        (λ e t. true)
        copy
        archive_entries
        archive_entries
        (31 ∷ 139 ∷ [])
        (100 ∷ []) in
    AllInside (100 ∷ []) r.files × (written r.files ≤ max_extracted_bytes + 1)
extract_archive-bounds_example =
    extract_archive-bounds (λ n. n) join_path (λ e t. true) copy (λ e limit. ground arith)
      archive_entries archive_entries (31 ∷ 139 ∷ []) (100 ∷ [])

abbrev manifest : Manifest
manifest = record {
  title = 97 ∷ [];
  difficulty = "";
  time_limit_ms = pos 1000;
  memory_limit_mb = pos 64;
}

abbrev cfg : EntranceConfig
cfg = record { code_ttl = 1000; max_attempts = 5 }

abbrev ext : Calls
ext = record {
  is_valid_email = λ e. true;
  six_digits = λ n. "000000";
  generate_hash = λ c. some "h";
  compare_hash = λ h c. true;
  send_email = λ e c. true;
  hex = λ b. "00";
  user_prefix = λ s. s;
  code_bytes = some (0, 0, 0, 0);
  random = λ i. some [];
}

abbrev sent : VerificationCode
sent = record {
  email = "user@example.com";
  code_hash = "h";
  expires_at = 500;
  attempts = 3;
  created_at = 50;
}

abbrev waiting_code : World
waiting_code = record fresh { db = record fresh.db { verification_codes = sent ∷ [] } }

abbrev service : SessionService
service = record { session_duration = 1000 }

abbrev guesses : List (ℕ × String)
guesses = (110, "1") ∷ (120, "2") ∷ (130, "3") ∷ []

-- No guess matches.
abbrev unlucky : Calls
unlucky = record ext { compare_hash = λ h c. false }

comparisons-attempts_left_example :
    comparisons cfg unlucky "user@example.com" service (some []) guesses waiting_code
    ≤ attempts_left (to_int32 5) "user@example.com" waiting_code.db
comparisons-attempts_left_example =
    comparisons-attempts_left cfg unlucky "user@example.com" service (some []) guesses waiting_code

abbrev session : Session
session = record {
  id = 1;
  user_id = 1;
  token = "00";
  expires_at = 1100;
  created_at = 100;
  updated_at = 100;
}

verify_code-ok_example :
    (vc : VerificationCode) × (find_code "user@example.com" waiting_code.db ≡ some vc)
    × (ltb vc.expires_at 100 ≡ false)
    × (below vc.attempts (to_int32 5) ≡ true)
    × (ext.compare_hash vc.code_hash "123456" ≡ true)
unfolding verify_code byte_battle.Entrance.log_in byte_battle.Entrance.claim_attempt
    byte_battle.Queries.VerificationCodes.get_verification_code byte_battle.Db.Exec.statement
    byte_battle.Queries.VerificationCodes.increment_attempts_if_below_limit
    byte_battle.Entrance.get_or_create_user byte_battle.Queries.Users.get_user_by_email
    byte_battle.Queries.Users.set_email_verified byte_battle.Session.create_session
    byte_battle.Session.generate_token byte_battle.Queries.Sessions.create_session
    byte_battle.Queries.VerificationCodes.delete_verification_code
verify_code-ok_example =
    verify_code-ok cfg ext "user@example.com" service (some []) "123456" waiting_code session refl
