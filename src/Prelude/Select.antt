-- ===== src/Prelude/Select.antt =====
-- What selection, ORDER BY and LIMIT keep of a list.
use Prim.Native.Nat.{ℕ, zero, suc, ◌≤◌}
use mathlib.Core.Path.{◌≡◌, refl}
use mathlib.Core.Bool.{Bool, true}
use mathlib.Core.List.{List, [], ◌∷◌, ◌++◌, reverse, reverse-cons}
use native.Mathlib.Omega.{arith}
use mathlib.Core.Logic.{inl, inr}
use byte_battle.Prelude.Tests.{Bool-cases, leb, if◌then◌else◌}
use byte_battle.Prelude.Lists.{length, take, drop, filter, order_by, insert_by}

abbrev pub All {ℓ κ} : {A : Type ℓ} → (A → Type κ) → List A → Type κ
All P [] = Unit
All P (x ∷ xs) = P x × All P xs

module _ {A : Type 0} where
  pub length-take-le : (n : ℕ) (xs : List A) → length (take n xs) ≤ n
  length-take-le zero xs = omega arith
  length-take-le (suc n) [] = omega arith
  length-take-le (suc n) (x ∷ xs) = omega (arith, length-take-le n xs)

  -- Every row keyed at least `n`.
  abbrev AtLeast : (A → ℕ) → ℕ → List A → Type 0
  AtLeast key n = All (λ y. n ≤ key y)

  -- A list in the order of a key.
  abbrev pub IsOrdered : (A → ℕ) → List A → Type 0
  IsOrdered key [] = Unit
  IsOrdered key (x ∷ xs) = AtLeast key (key x) xs × IsOrdered key xs

  AtLeast-mono : (key : A → ℕ) (m n : ℕ) (xs : List A) → m ≤ n → AtLeast key n xs → AtLeast key m xs
  AtLeast-mono key m n [] h a = tt
  AtLeast-mono key m n (x ∷ xs) h a = (omega arith, AtLeast-mono key m n xs h a.1)

  AtLeast-insert :
      (key : A → ℕ) (n : ℕ) (x : A) (ys : List A)
      → n ≤ key x
      → AtLeast key n ys
      → AtLeast key n (insert_by key x ys)
  unfolding insert_by
  AtLeast-insert key n x [] h a = (h, tt)
  AtLeast-insert key n x (y ∷ ys) h a = ground (arith, AtLeast-insert key n x ys h a.1)

  insert_by-IsOrdered :
      (key : A → ℕ) (x : A) (ys : List A) → IsOrdered key ys → IsOrdered key (insert_by key x ys)
  unfolding insert_by
  insert_by-IsOrdered key x [] o = (tt, tt)
  insert_by-IsOrdered key x (y ∷ ys) o = ground (
    arith,
    insert_by-IsOrdered key x ys o.1,
    AtLeast-insert key (key y) x ys,
    AtLeast-mono key (key x) (key y) ys,
  )

  pub order_by-IsOrdered : (key : A → ℕ) (xs : List A) → IsOrdered key (order_by key xs)
  unfolding order_by
  order_by-IsOrdered key [] = tt
  order_by-IsOrdered key (x ∷ xs) =
      insert_by-IsOrdered key x (order_by key xs) (order_by-IsOrdered key xs)

  insert_by-first :
      (key : A → ℕ) (x : A) (ys : List A) → AtLeast key (key x) ys → insert_by key x ys ≡ x ∷ ys
  unfolding insert_by
  insert_by-first key x [] a = refl
  insert_by-first key x (y ∷ ys) a = ground arith

  AtLeast-filter :
      (key : A → ℕ) (n : ℕ) (p : A → Bool) (ys : List A)
      → AtLeast key n ys
      → AtLeast key n (filter p ys)
  AtLeast-filter key n p [] a = tt
  AtLeast-filter key n p (y ∷ ys) a = ground (arith, AtLeast-filter key n p ys a.1)

  filter-insert_by :
      (key : A → ℕ) (p : A → Bool) (x : A) (ys : List A)
      → IsOrdered key ys
      → filter p (insert_by key x ys) ≡ (if p x then insert_by key x (filter p ys) else filter p ys)
  unfolding insert_by
  filter-insert_by key p x [] o = ground arith
  filter-insert_by key p x (y ∷ ys) o = ground (
    arith,
    filter-insert_by key p x ys o.1,
    insert_by-first key x (filter p ys),
    AtLeast-filter key (key x) p ys,
    AtLeast-mono key (key x) (key y) ys,
  )

  -- Selecting before or after ORDER BY is the same.
  pub filter-order_by :
      (key : A → ℕ) (p : A → Bool) (xs : List A)
      → filter p (order_by key xs) ≡ order_by key (filter p xs)
  unfolding order_by
  filter-order_by key p [] = refl
  filter-order_by key p (x ∷ xs) = ground (
    arith,
    filter-insert_by key p x (order_by key xs) (order_by-IsOrdered key xs),
    filter-order_by key p xs,
  )

  pub All-filter : (p : A → Bool) (xs : List A) → All (λ x. p x ≡ true) (filter p xs)
  All-filter p [] = tt
  All-filter p (x ∷ xs) = ground (arith, All-filter p xs)

  AtLeast-same : (key : A → ℕ) (n : ℕ) (xs : List A) → All (λ x. key x ≡ n) xs → AtLeast key n xs
  AtLeast-same key n [] a = tt
  AtLeast-same key n (x ∷ xs) a = (omega (arith, a.0), AtLeast-same key n xs a.1)

  -- ORDER BY a key that is the same in all rows changes nothing.
  pub order_by-same :
      (key : A → ℕ) (n : ℕ) (xs : List A) → All (λ x. key x ≡ n) xs → order_by key xs ≡ xs
  unfolding order_by
  order_by-same key n [] a = refl
  order_by-same key n (x ∷ xs) a =
      rw (order_by-same key n xs a.1)
        (insert_by-first key x xs (let e : key x ≡ n = a.0 in rw e (AtLeast-same key n xs a.1)))

  pub All-take : (P : A → Type 0) (n : ℕ) (xs : List A) → All P xs → All P (take n xs)
  All-take P zero xs a = tt
  All-take P (suc n) [] a = tt
  All-take P (suc n) (x ∷ xs) a = (a.0, All-take P n xs a.1)

  pub All-drop : (P : A → Type 0) (n : ℕ) (xs : List A) → All P xs → All P (drop n xs)
  All-drop P zero xs a = a
  All-drop P (suc n) [] a = tt
  All-drop P (suc n) (x ∷ xs) a = All-drop P n xs a.1

  All-insert :
      (P : A → Type 0) (key : A → ℕ) (x : A) (ys : List A)
      → P x
      → All P ys
      → All P (insert_by key x ys)
  unfolding insert_by
  All-insert P key x [] h a = (h, tt)
  All-insert P key x (y ∷ ys) h a = elim (Bool-cases (leb (key x) (key y))) [
    | inl first ↦ rw first (h, a)
    | inr later ↦ rw later (a.0, All-insert P key x ys h a.1)
  ]

  pub All-order_by :
      (P : A → Type 0) (key : A → ℕ) (xs : List A) → All P xs → All P (order_by key xs)
  unfolding order_by
  All-order_by P key [] a = tt
  All-order_by P key (x ∷ xs) a =
      All-insert P key x (order_by key xs) a.0 (All-order_by P key xs a.1)

  All-append : (P : A → Type 0) (xs ys : List A) → All P xs → All P ys → All P (xs ++ ys)
  All-append P [] ys a b = b
  All-append P (x ∷ xs) ys a b = (a.0, All-append P xs ys a.1 b)

  pub All-reverse : (P : A → Type 0) (xs : List A) → All P xs → All P (reverse xs)
  All-reverse P [] a = tt
  All-reverse P (x ∷ xs) a =
      rw (reverse-cons x xs) (All-append P (reverse xs) (x ∷ []) (All-reverse P xs a.1) (a.0, tt))
