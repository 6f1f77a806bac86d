-- ===== src/Submission/Verdict.antt =====
-- The verdict on a submission's code.
use byte_battle.Prelude.{
  ℕ, suc, ◌+◌, ◌≡◌, refl, sym, inl, inr, true, false, some, none, List, [], ◌∷◌, String, get_elem?,
  take, ap, ◌∙◌, subst, ◌⊎◌, arith, Bool-cases, if◌then◌else◌,
}
use byte_battle.Problem.{TestCase, Problem}
use byte_battle.Submission.{
  Executor, ExecutionOutcome, passes, noted, run_tests, started, execute_against_problem,
}

plus_zero : (i : ℕ) → i + 0 ≡ i
plus_zero i = omega arith

module _ (run : Executor) (code language : String) where
  -- The tests, from the i-th on, all pass.
  abbrev pub AllPass : ℕ → List TestCase → Type 0
  AllPass i [] = Unit
  AllPass i (t ∷ ts) = (passes run code language i t ≡ true) × AllPass (suc i) ts

  -- The test k of the list fails, and those before it pass.
  abbrev pub FailsFirst : ℕ → List TestCase → ℕ → TestCase → Type 0
  FailsFirst i ts k t =
      (get_elem? ts k ≡ some t)
      × AllPass i (take k ts)
      × (passes run code language (i + k) t ≡ false)

  abbrev Verdict : ℕ → List TestCase → ExecutionOutcome → Type 0
  Verdict i ts r =
      ((r.accepted ≡ true) × (r.failed_test ≡ none) × AllPass i ts)
      ⊎ ((k : ℕ) × (t : TestCase) × (r.accepted ≡ false)
          × (r.failed_test ≡ some (i + k))
          × FailsFirst i ts k t)

  later-Verdict :
      (i : ℕ) (t : TestCase) (ts : List TestCase) (r : ExecutionOutcome)
      → passes run code language i t ≡ true
      → Verdict (suc i) ts r
      → Verdict i (t ∷ ts) r
  later-Verdict i t ts r first (inl (a, n, all)) = inl (a, n, (first, all))
  later-Verdict i t ts r first (inr (k, u, a, n, (at, before, fails))) =
      let shift : suc i + k ≡ i + suc k = omega arith in
      inr (
        suc k,
        u,
        a,
        n ∙ ap some shift,
        (at, (first, before), subst (λ x. passes run code language x u ≡ false) shift fails),
      )

  run_tests-Verdict :
      (i : ℕ) (outcome : ExecutionOutcome) (ts : List TestCase)
      → outcome.accepted ≡ true
      → outcome.failed_test ≡ none
      → Verdict i ts (run_tests run code language i outcome ts)
  unfolding run_tests
  run_tests-Verdict i outcome [] good clear = inl (good, clear, tt)
  run_tests-Verdict i outcome (t ∷ ts) good clear =
      elim (Bool-cases (passes run code language i t)) [
        | inl pass ↦
            let rest =
              run_tests-Verdict (suc i) (noted run code language i t) ts pass (ground arith) in
            let all : ExecutionOutcome =
              run_tests run code language (suc i) (noted run code language i t) ts in
            subst (λ b. Verdict i (t ∷ ts) (if b then all else noted run code language i t))
              (sym pass) (later-Verdict i t ts all pass rest)
        | inr fail ↦ inr (
          0,
          t,
          rw (fail) refl,
          ground arith,
          (refl, tt, subst (λ x. passes run code language x t ≡ false) (sym (plus_zero i)) fail),
        )
      ]

  -- Accepted without a failed test, and every test passes; or refused at the first that does not.
  abbrev pub Judgement : Problem → ExecutionOutcome → Type 0
  Judgement p r =
      ((r.accepted ≡ true) × (r.failed_test ≡ none) × AllPass 0 p.test_cases)
      ⊎ ((k : ℕ) × (t : TestCase) × (r.accepted ≡ false)
          × (r.failed_test ≡ some k)
          × FailsFirst 0 p.test_cases k t)

  from_zero : (p : Problem) (r : ExecutionOutcome) → Verdict 0 p.test_cases r → Judgement p r
  from_zero p r (inl v) = inl v
  from_zero p r (inr (k, t, a, n, f)) =
      let shift : 0 + k ≡ k = omega arith in inr (k, t, a, n ∙ ap some shift, f)

  -- The code is accepted, with no failed test, if and only if every test passes: Run gives no error
  -- and Match accepts its output. Otherwise failed_test is the first test that does not pass.
  pub execute_against_problem-Verdict :
      (p : Problem) → Judgement p (execute_against_problem run p code language)
  unfolding execute_against_problem
  execute_against_problem-Verdict p =
      from_zero p (run_tests run code language 0 started p.test_cases)
        (run_tests-Verdict 0 started p.test_cases refl refl)
