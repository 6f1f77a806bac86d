-- ===== src/Prelude/Lists.antt =====
-- Lists as the tables of a database: selection, update and deletion of rows by a Boolean test,
-- ORDER BY as a stable insertion sort, and lookups by a numeric key.
use Prim.Native.Nat.{ℕ, zero, suc, ◌+◌, ◌≤◌}
use mathlib.Core.Path.{◌≡◌, refl}
use mathlib.Core.Bool.{Bool, true, false, ◌||◌, not}
use mathlib.Core.Option.{Option, none, some}
use mathlib.Core.Option
use mathlib.Core.List.{List, [], ◌∷◌, ◌++◌}
use native.Mathlib.Omega.{arith}
use byte_battle.Prelude.Tests.{leb, ◌==◌, if◌then◌else◌}

module _ {ℓ} {A : Type ℓ} where
  abbrev pub length : List A → ℕ
  length [] = 0
  length (x ∷ xs) = suc (length xs)

  abbrev pub get_elem? : List A → ℕ → Option A
  get_elem? [] i = none
  get_elem? (x ∷ xs) zero = some x
  get_elem? (x ∷ xs) (suc i) = get_elem? xs i

  abbrev pub drop : ℕ → List A → List A
  drop zero xs = xs
  drop (suc n) [] = []
  drop (suc n) (x ∷ xs) = drop n xs

  abbrev pub take : ℕ → List A → List A
  take zero xs = []
  take (suc n) [] = []
  take (suc n) (x ∷ xs) = x ∷ take n xs

  -- SELECT … WHERE p
  abbrev pub filter : (A → Bool) → List A → List A
  filter p [] = []
  filter p (x ∷ xs) = if p x then x ∷ filter p xs else filter p xs

  -- SELECT … WHERE p LIMIT 1
  abbrev pub find? : (A → Bool) → List A → Option A
  find? p [] = none
  find? p (x ∷ xs) = if p x then some x else find? p xs

  -- EXISTS (SELECT … WHERE p)
  abbrev pub any : (A → Bool) → List A → Bool
  any p [] = false
  any p (x ∷ xs) = p x || any p xs

  -- UPDATE … SET f WHERE p
  abbrev pub update : (A → Bool) → (A → A) → List A → List A
  update p f [] = []
  update p f (x ∷ xs) = (if p x then f x else x) ∷ update p f xs

  -- DELETE … WHERE p
  abbrev pub delete : (A → Bool) → List A → List A
  delete p = filter (λ x. not (p x))

  unfoldable pub insert_by : (A → ℕ) → A → List A → List A
  insert_by key x [] = x ∷ []
  insert_by key x (y ∷ ys) = if leb (key x) (key y) then x ∷ y ∷ ys else y ∷ insert_by key x ys

  -- ORDER BY key
  unfoldable pub order_by : (A → ℕ) → List A → List A
  unfolding insert_by
  order_by key [] = []
  order_by key (x ∷ xs) = insert_by key x (order_by key xs)

  pub length-append : (xs ys : List A) → length (xs ++ ys) ≡ length xs + length ys
  length-append [] ys = omega arith
  length-append (x ∷ xs) ys = omega (arith, length-append xs ys)

  pub any-append : (p : A → Bool) (xs ys : List A) → any p (xs ++ ys) ≡ (any p xs || any p ys)
  any-append p [] ys = refl
  any-append p (x ∷ xs) ys = ground (arith, any-append p xs ys)

  pub filter-append :
      (p : A → Bool) (xs ys : List A) → filter p (xs ++ ys) ≡ filter p xs ++ filter p ys
  filter-append p [] ys = refl
  filter-append p (x ∷ xs) ys = ground (arith, filter-append p xs ys)

  pub find?-append_some :
      (p : A → Bool) (xs ys : List A) (a : A) → find? p xs ≡ some a → find? p (xs ++ ys) ≡ some a
  find?-append_some p [] ys a h = cc
  find?-append_some p (x ∷ xs) ys a h = ground (arith, find?-append_some p xs ys a)

  pub find?-append_none :
      (p : A → Bool) (xs ys : List A) → find? p xs ≡ none → find? p (xs ++ ys) ≡ find? p ys
  find?-append_none p [] ys h = refl
  find?-append_none p (x ∷ xs) ys h = ground (arith, find?-append_none p xs ys)

  -- A row that a lookup finds passes the lookup's test.
  pub find?-holds : (p : A → Bool) (xs : List A) (a : A) → find? p xs ≡ some a → p a ≡ true
  find?-holds p [] a h = cc
  find?-holds p (x ∷ xs) a h = ground (arith, find?-holds p xs a)

  pub any-find? : (p : A → Bool) (xs : List A) (a : A) → find? p xs ≡ some a → any p xs ≡ true
  any-find? p [] a h = cc
  any-find? p (x ∷ xs) a h = ground (arith, any-find? p xs a)

-- Rows with a numeric primary key.
module _ {ℓ} {A : Type ℓ} (key : A → ℕ) where
  abbrev pub find_key : ℕ → List A → Option A
  find_key k = find? (λ x. key x == k)

  pub find_key-update :
      (f : A → A) (i j : ℕ) (xs : List A)
      → ((x : A) → key (f x) ≡ key x)
      → find_key j (update (λ x. key x == i) f xs)
        ≡ (if i == j then Option.map f (find_key j xs) else find_key j xs)
  find_key-update f i j [] h = ground arith
  find_key-update f i j (x ∷ xs) h = ground (arith, h x, find_key-update f i j xs h)

  pub find_key-delete :
      (i j : ℕ) (xs : List A)
      → find_key j (delete (λ x. key x == i) xs) ≡ (if i == j then none else find_key j xs)
  find_key-delete i j [] = ground arith
  find_key-delete i j (x ∷ xs) = ground (arith, find_key-delete i j xs)

module _ {ℓ} {A : Type ℓ} (key : A → ℕ) where
  -- Rows in the order of a key.
  abbrev pub IsSorted : List A → Type 0
  IsSorted [] = Unit
  IsSorted (x ∷ []) = Unit
  IsSorted (x ∷ y ∷ ys) = (key x ≤ key y) × IsSorted (y ∷ ys)

  pub order_by-sorted : (xs : List A) → IsSorted xs → order_by key xs ≡ xs
  unfolding order_by
  order_by-sorted [] s = refl
  order_by-sorted (x ∷ []) s = refl
  order_by-sorted (x ∷ y ∷ ys) s = rw (order_by-sorted (y ∷ ys) s.1) (ground arith)
