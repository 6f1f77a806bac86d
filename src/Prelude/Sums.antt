-- ===== src/Prelude/Sums.antt =====
-- Writing to a list at an index, occurrences of a number, and sums over a list.
use Prim.Native.Nat.{ℕ, zero, suc, ◌+◌}
use mathlib.Core.Path.{◌≡◌, refl}
use mathlib.Core.Bool.{Bool, true, false}
use mathlib.Core.Option.{some}
use mathlib.Core.List.{List, [], ◌∷◌, ◌++◌}
use native.Mathlib.Omega.{arith}
use byte_battle.Prelude.Tests.{◌==◌, if◌then◌else◌}
use byte_battle.Prelude.Lists.{get_elem?, delete}

abbrev pub one_if : Bool → ℕ
one_if true = 1
one_if false = 0

-- How often a number occurs.
abbrev pub count : ℕ → List ℕ → ℕ
count i [] = 0
count i (j ∷ js) = one_if (j == i) + count i js

pub count-append : (i : ℕ) (xs ys : List ℕ) → count i (xs ++ ys) ≡ count i xs + count i ys
count-append i [] ys = omega arith
count-append i (x ∷ xs) ys = omega (arith, count-append i xs ys)

pub count-delete :
    (i k : ℕ) (xs : List ℕ) → count i (delete (λ x. x == k) xs) ≡ (if i == k then 0 else count i xs)
count-delete i k [] = ground arith
count-delete i k (x ∷ xs) = ground (arith, count-delete i k xs)

module _ {A : Type 0} where
  -- xs[i] = a
  abbrev pub set : ℕ → A → List A → List A
  set i a [] = []
  set zero a (x ∷ xs) = a ∷ xs
  set (suc i) a (x ∷ xs) = x ∷ set i a xs

  abbrev pub total : (A → ℕ) → List A → ℕ
  total f [] = 0
  total f (x ∷ xs) = f x + total f xs

  pub total-set :
      (f : A → ℕ) (i : ℕ) (a old : A) (xs : List A)
      → get_elem? xs i ≡ some old
      → total f (set i a xs) + f old ≡ total f xs + f a
  total-set f i a old [] h = cc
  total-set f zero a old (x ∷ xs) h = ground arith
  total-set f (suc i) a old (x ∷ xs) h = omega (arith, total-set f i a old xs h)

  pub get_elem?-set :
      (i : ℕ) (a old : A) (xs : List A)
      → get_elem? xs i ≡ some old
      → get_elem? (set i a xs) i ≡ some a
  get_elem?-set i a old [] h = cc
  get_elem?-set zero a old (x ∷ xs) h = refl
  get_elem?-set (suc i) a old (x ∷ xs) h = get_elem?-set i a old xs h
