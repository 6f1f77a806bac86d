-- ===== src/Execution/Lookups.antt =====
-- Keys of slots, entries of the maps, and the places of goroutines.
use byte_battle.Prelude.{
  ℕ, ◌≡◌, ◌≢◌, refl, inl, inr, ◌==◌, true, some, none, List, ◌∷◌, arith, Bool-cases,
}
use byte_battle.Execution.{Kind, execute, submit, SlotKey, same_slot, same_kind, load}
use byte_battle.Execution.Schedule.{Place, move}

same_kind-≡ : (a b : Kind) → same_kind a b ≡ true → a ≡ b
same_kind-≡ execute execute h = refl
same_kind-≡ submit submit h = refl
same_kind-≡ execute submit h = cc
same_kind-≡ submit execute h = cc

same_kind_refl : (a : Kind) → same_kind a a ≡ true
same_kind_refl execute = refl
same_kind_refl submit = refl

pub same_slot-≡ : (k l : SlotKey) → same_slot k l ≡ true → k ≡ l
same_slot-≡ k l h =
    let users : k.user_id ≡ l.user_id = ground arith in
    let kinds : k.kind ≡ l.kind = same_kind-≡ k.kind l.kind (ground arith) in rw (users, kinds) refl

pub same_slot_refl : (k : SlotKey) → same_slot k k ≡ true
same_slot_refl k = ground (arith, same_kind_refl k.kind)

-- A new entry, for a key without one, leaves the other keys' entries.
pub load-new :
    (k l : SlotKey) (n a : ℕ) (m : List (SlotKey × ℕ))
    → load same_slot k m ≡ none
    → load same_slot l m ≡ some a
    → load same_slot l ((k, n) ∷ m) ≡ some a
unfolding load
load-new k l n a m fresh old = elim (Bool-cases (same_slot l k)) [
  | inl same ↦ absurd (clash (same_slot-≡ l k same))
  | inr other ↦ rw (other) old
]
  where
    clash : ¬ (l ≡ k)
    clash e = let both : load same_slot k m ≡ some a = rw (← e) old in cc

pub load-top :
    (k : SlotKey) (n : ℕ) (m : List (SlotKey × ℕ)) → load same_slot k ((k, n) ∷ m) ≡ some n
unfolding load
load-top k n m = rw (same_slot_refl k) refl

pub move-same : (t : ℕ) (p : Place) (f : ℕ → Place) → move t p f t ≡ p
move-same t p f = ground arith

-- What holds of every goroutine's place still does when one moves to a place where it holds.
pub move-All :
    (P : ℕ → Place → Type 0) (t : ℕ) (p : Place) (f : ℕ → Place)
    → P t p
    → ((u : ℕ) → u ≢ t → P u (f u))
    → (u : ℕ) → P u (move t p f u)
move-All P t p f new old u = elim (Bool-cases (u == t)) [
  | inl same ↦ let e : u ≡ t = ground arith in rw (e, move-same t p f) new
  | inr other ↦ rw (other) (old u (λ e. ground arith))
]
