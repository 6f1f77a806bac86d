-- ===== src/Docker/Readiness.antt =====
-- internal/executor/docker_executor.go: IsReady and notifyPoolPrimed, one atomic operation at a time.
use byte_battle.Prelude.{
  ℕ, zero, suc, ◌+◌, ◌<◌, ◌≤◌, ◌≡◌, ◌↔◌, refl, sym, ◌∙◌, ◌==◌, ltb, Bool, true, false, ◌&&◌, not,
  List, [], ◌∷◌, length, arith,
}
use byte_battle.Prelude.Select.{All}
use byte_battle.Prelude.Sums.{one_if, total}

-- The languages' flags of primedPerLang, the goroutines between the swap and the count, the counter,
-- and the goroutines between a count that is the number of languages and the store.
pub record Readiness : Type 0 where
  pub primed : List Bool
  pub swapped : ℕ
  pub primed_count : ℕ
  pub storing : ℕ
  pub ready : Bool

-- CompareAndSwap(false, true) of a language's flag: whether it was set, and the flags.
abbrev compare_and_swap : ℕ → List Bool → Bool × List Bool
compare_and_swap l [] = (false, [])
compare_and_swap zero (b ∷ bs) = (not b, true ∷ bs)
compare_and_swap (suc l) (b ∷ bs) = let (done, rest) = compare_and_swap l bs in (done, b ∷ rest)

pub data Step : Type 0 where
  swap : ℕ → Step
  add store : Step

abbrev added : ℕ → Readiness → Readiness
added zero r = r
added (suc n) r = record r {
  swapped = n;
  primed_count = suc r.primed_count;
  storing = r.storing + one_if (suc r.primed_count == length r.primed);
}

abbrev stored : ℕ → Readiness → Readiness
stored zero r = r
stored (suc n) r = record r { storing = n; ready = true }

-- notifyPoolPrimed: the swap, the count of a goroutine whose swap has succeeded, and the store of one
-- whose count was the number of languages.
unfoldable pub step : Step → Readiness → Readiness
step (swap l) r =
    let (done, primed) = compare_and_swap l r.primed in
    record r { primed = primed; swapped = r.swapped + one_if done }
step add r = added r.swapped r
step store r = stored r.storing r

unfoldable pub run : List Step → Readiness → Readiness
run [] r = r
run (s ∷ ss) r = run ss (step s r)

unfoldable pub is_ready : Readiness → Bool
is_ready r = ltb 0 (length r.primed) && r.ready

abbrev unprimed : ℕ → List Bool
unprimed zero = []
unprimed (suc n) = false ∷ unprimed n

-- initPools with n languages.
unfoldable pub init_readiness : ℕ → Readiness
init_readiness n = record {
  primed = unprimed n;
  swapped = 0;
  primed_count = 0;
  storing = 0;
  ready = false;
}

abbrev IsCounted : ℕ → Readiness → Type 0
IsCounted n r =
    (r.primed_count + r.swapped ≡ total one_if r.primed)
    × (length r.primed ≡ n)
    × (r.storing + one_if r.ready ≡ one_if (ltb 0 n && r.primed_count == n))

swap-total :
    (l : ℕ) (bs : List Bool)
    → (total one_if (compare_and_swap l bs).1 ≡ total one_if bs + one_if (compare_and_swap l bs).0)
      × (length (compare_and_swap l bs).1 ≡ length bs)
swap-total l [] = (refl, refl)
swap-total zero (true ∷ bs) = ground arith
swap-total zero (false ∷ bs) = ground arith
swap-total (suc l) (b ∷ bs) = ground (arith, swap-total l bs)

total-le : (bs : List Bool) → total one_if bs ≤ length bs
total-le [] = omega arith
total-le (true ∷ bs) = omega (arith, total-le bs)
total-le (false ∷ bs) = omega (arith, total-le bs)

total-All : (bs : List Bool) → (total one_if bs ≡ length bs) ↔ All (λ b. b ≡ true) bs
total-All [] = (λ e. tt, λ a. refl)
total-All (true ∷ bs) = (
  λ e. (refl, (total-All bs).0 (omega arith)),
  λ a. let rest = (total-All bs).1 a.1 in omega arith,
)
total-All (false ∷ bs) = (λ e. let low = total-le bs in absurd (omega arith), λ a. cc)

added-IsCounted :
    (n k : ℕ) (r : Readiness) → k ≡ r.swapped → IsCounted n r → IsCounted n (added k r)
added-IsCounted n zero r e c = c
added-IsCounted n (suc k) r e c = ground (arith, total-le r.primed)

stored-IsCounted :
    (n k : ℕ) (r : Readiness) → k ≡ r.storing → IsCounted n r → IsCounted n (stored k r)
stored-IsCounted n zero r e c = c
stored-IsCounted n (suc k) r e c = ground arith

step-IsCounted : (n : ℕ) (s : Step) (r : Readiness) → IsCounted n r → IsCounted n (step s r)
unfolding step
step-IsCounted n (swap l) r c = ground (arith, swap-total l r.primed)
step-IsCounted n add r c = added-IsCounted n r.swapped r refl c
step-IsCounted n store r c = stored-IsCounted n r.storing r refl c

run-IsCounted : (n : ℕ) (ss : List Step) (r : Readiness) → IsCounted n r → IsCounted n (run ss r)
unfolding run
run-IsCounted n [] r c = c
run-IsCounted n (s ∷ ss) r c = run-IsCounted n ss (step s r) (step-IsCounted n s r c)

unprimed-total : (n : ℕ) → (total one_if (unprimed n) ≡ 0) × (length (unprimed n) ≡ n)
unprimed-total zero = (refl, refl)
unprimed-total (suc n) = omega (arith, unprimed-total n)

init_readiness-IsCounted : (n : ℕ) → IsCounted n (init_readiness n)
unfolding init_readiness
init_readiness-IsCounted n = ground (arith, unprimed-total n)

ready_test :
    (n c k : ℕ) (ready : Bool)
    → k + one_if ready ≡ one_if (ltb 0 n && c == n)
    → (ltb 0 n && ready) ≡ true
    → (0 < n) × (c ≡ n) × (k ≡ 0)
ready_test n c k ready e h = ground arith

ready_test_conv :
    (n c : ℕ) (ready : Bool)
    → 0 + one_if ready ≡ one_if (ltb 0 n && c == n)
    → 0 < n
    → c ≡ n
    → (ltb 0 n && ready) ≡ true
ready_test_conv n c ready e h same = ground arith

-- However the workers' notifications interleave, IsReady holds exactly if there are languages, each
-- of them has had a container, every goroutine that has set a language's flag has counted it, and the
-- one whose count was the number of languages has stored that the executor is ready.
pub run-is_ready :
    (n : ℕ) (ss : List Step)
    → (is_ready (run ss (init_readiness n)) ≡ true) ↔ (
        (0 < n)
        × All (λ b. b ≡ true) (run ss (init_readiness n)).primed
        × ((run ss (init_readiness n)).swapped ≡ 0)
        × ((run ss (init_readiness n)).storing ≡ 0))
unfolding is_ready
run-is_ready n ss =
    let r : Readiness = run ss (init_readiness n) in
    let (sum, size, is) = run-IsCounted n ss (init_readiness n) (init_readiness-IsCounted n) in
    let low = total-le r.primed in
    let (full, all) = total-All r.primed in
    let test : is_ready r ≡ (ltb 0 n && r.ready) = cc in
    (
      λ h.
          let (some_language, counted, idle) =
            ready_test n r.primed_count r.storing r.ready is (sym test ∙ h) in
          (some_language, full (omega arith), omega arith, idle),
      λ (some_language, primed, none_swapped, none_storing).
          let every = all primed in
          test ∙ ready_test_conv n r.primed_count r.ready (omega arith) some_language (omega arith),
    )
