-- ===== src/Docker/Exec.antt =====
-- internal/executor/docker_executor.go: execInContainer, from what the container does to the result.
use byte_battle.Prelude.{
  ℕ, ◌+◌, ◌≤◌, ◌≡◌, ◌⊎◌, ◌↔◌, inl, inr, ◌≢◌, refl, ap, subst, Bool-cases, ◌==◌, leb, if◌then◌else◌,
  Bool, true, false, ◌||◌, not, Option, none, some, [], ◌∷◌, ◌++◌, length, take, arith,
  length-append,
}
use byte_battle.Prelude.Select.{length-take-le}
use byte_battle.Problem.{Text}
use byte_battle.Submission.{ExecutionResult}

-- "...[truncated]" and "\nExecution timed out."
abbrev truncation_mark : Text
truncation_mark = 46 ∷ 46 ∷ 46 ∷ 91 ∷ 116 ∷ 114 ∷ 117 ∷ 110 ∷ 99 ∷ 97 ∷ 116 ∷ 101 ∷ 100 ∷ 93 ∷ []

abbrev timeout_note : Text
timeout_note =
    10 ∷ 69 ∷ 120 ∷ 101 ∷ 99 ∷ 117 ∷ 116 ∷ 105 ∷ 111 ∷ 110 ∷ 32 ∷ 116 ∷ 105 ∷ 109 ∷ 101 ∷ 100 ∷ 32
    ∷ 111 ∷ 117 ∷ 116 ∷ 46 ∷ []

unfoldable pub truncate_string : Text → ℕ → Text
truncate_string s max_len = if leb (length s) max_len then s else take max_len s ++ truncation_mark

abbrev pub max_log_size : ℕ
max_log_size = 10240

-- How the select of execInContainer ends: the output is read to its end, or not to its end, the
-- safety net fires, or the context is done.
pub data Ending : Type 0 where
  finished unreadable safety_fired cancelled : Ending

-- What Docker and the container do: whether the files are copied, the command is created and
-- attached, the output so far, and the exit code if the inspection succeeds.
pub record Daemon : Type 0 where
  pub copied : Bool
  pub exec_created : Bool
  pub attached : Bool
  pub ending : Ending
  pub stdout : Text
  pub stderr : Text
  pub exit_code : Option ℕ

abbrev pub failed : ExecutionResult × Bool
failed = (record { stdout = []; stderr = []; exit_code = 0 }, true)

abbrev code_or_zero : Option ℕ → ℕ
code_or_zero none = 0
code_or_zero (some n) = n

abbrev pub is_fired : Ending → Bool
is_fired safety_fired = true
is_fired _ = false

-- After the select.
unfoldable pub result_of : Daemon → ExecutionResult
result_of d =
    let code = code_or_zero d.exit_code in
    let timed_out = is_fired d.ending || code == 124 in
    record {
      stdout = truncate_string d.stdout max_log_size;
      stderr = truncate_string d.stderr max_log_size ++ (if timed_out then timeout_note else []);
      exit_code = if timed_out then 124 else code;
    }

abbrev ended : Daemon → Ending → ExecutionResult × Bool
ended d unreadable = failed
ended d cancelled = failed
ended d finished = (result_of d, false)
ended d safety_fired = (result_of d, false)

unfoldable pub exec_in_container : Daemon → ExecutionResult × Bool
exec_in_container d =
    if not d.exec_created then failed else if not d.attached then failed else ended d d.ending

unfoldable pub execute_work_item : Daemon → ExecutionResult × Bool
execute_work_item d = if d.copied then exec_in_container d else failed

truncate_string-length : (s : Text) (n : ℕ) → length (truncate_string s n) ≤ n + 14
unfolding truncate_string
truncate_string-length s n =
    ground (arith, length-append (take n s) truncation_mark, length-take-le n s)

noted-length :
    (s : Text) (timed_out : Bool)
    → length (truncate_string s max_log_size ++ (if timed_out then timeout_note else [])) ≤ 10275
noted-length s timed_out = ground (
  arith,
  truncate_string-length s max_log_size,
  length-append (truncate_string s max_log_size) timeout_note,
  length-append (truncate_string s max_log_size) [],
)

code-timed :
    (fired : Bool) (code : ℕ)
    → (if fired || code == 124 then 124 else code) ≡ 124
    → (fired || code == 124) ≡ true
code-timed fired code h = ground arith

abbrev Fired : Ending → Option ℕ → Type 0
Fired e code = (e ≡ safety_fired) ⊎ (code ≡ some 124)

unfired-test :
    (e : Ending) (code : Option ℕ)
    → e ≢ safety_fired
    → ((code_or_zero code == 124) ≡ true) ↔ Fired e code
unfired-test e none apart = (λ h. cc, λ f. elim f [ inl x ↦ absurd (apart x) | inr x ↦ cc ])
unfired-test e (some n) apart = (
  λ h. let same : n ≡ 124 = ground arith in inr (ap some same),
  λ f. elim f [ inl x ↦ absurd (apart x) | inr x ↦ let same : n ≡ 124 = cc in rw (same) refl ],
)

Fired-test :
    (e : Ending) (code : Option ℕ)
    → ((is_fired e || code_or_zero code == 124) ≡ true) ↔ Fired e code
Fired-test finished code = unfired-test finished code (λ x. cc)
Fired-test unreadable code = unfired-test unreadable code (λ x. cc)
Fired-test safety_fired code = (λ h. inl refl, λ f. refl)
Fired-test cancelled code = unfired-test cancelled code (λ x. cc)

-- What is said of an execution's result.
abbrev IsResult : Daemon → ExecutionResult → Type 0
IsResult d r =
    (length r.stdout ≤ 10254)
    × (length r.stderr ≤ 10275)
    × ((r.exit_code ≡ 124) ↔ Fired d.ending d.exit_code)

result_of-IsResult : (d : Daemon) → IsResult d (result_of d)
unfolding result_of
result_of-IsResult d =
    let (fired, conv) = Fired-test d.ending d.exit_code in
    (
      truncate_string-length d.stdout 10240,
      noted-length d.stderr (is_fired d.ending || code_or_zero d.exit_code == 124),
      (
        λ h. fired (code-timed (is_fired d.ending) (code_or_zero d.exit_code) h),
        λ f. rw (conv f) refl,
      ),
    )

-- An execution that has ended without an error.
ended-IsResult :
    (d : Daemon) (e : Ending) (r : ExecutionResult) → ended d e ≡ (r, false) → IsResult d r
ended-IsResult d finished r h = subst (IsResult d) (ap (λ x. x.0) h) (result_of-IsResult d)
ended-IsResult d unreadable r h = absurd (cc)
ended-IsResult d safety_fired r h = subst (IsResult d) (ap (λ x. x.0) h) (result_of-IsResult d)
ended-IsResult d cancelled r h = absurd (cc)

-- An execution without an error, whatever Docker and the container do, has at most 10 KiB of each
-- output and the marks that are added to them, and the exit code 124 exactly if the safety net has
-- fired or timeout(1) has given that code.
pub execute_work_item-bounds :
    (d : Daemon) (r : ExecutionResult)
    → execute_work_item d ≡ (r, false)
    → (length r.stdout ≤ 10254)
      × (length r.stderr ≤ 10275)
      × ((r.exit_code ≡ 124) ↔ ((d.ending ≡ safety_fired) ⊎ (d.exit_code ≡ some 124)))
unfolding execute_work_item exec_in_container
execute_work_item-bounds d r h = elim (Bool-cases d.copied) [
  | inr missing ↦ absurd (ground arith)
  | inl copied ↦ elim (Bool-cases d.exec_created) [
    | inr missing ↦ absurd (ground arith)
    | inl created ↦ elim (Bool-cases d.attached) [
      | inr missing ↦ absurd (ground arith)
      | inl attached ↦ ended-IsResult d d.ending r (ground arith)
    ]
  ]
]
