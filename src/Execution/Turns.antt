-- ===== src/Execution/Turns.antt =====
-- One goroutine's use of a slot.
use byte_battle.Prelude.{
  ℕ, ◌+◌, ◌-◌, ◌≡◌, refl, ap, ◌∙◌, inl, inr, ltb, true, some, arith, Bool-cases, Option-cases,
}
use byte_battle.Execution.{
  SlotKey, same_slot, Slots, load, load_or_store, try_send, receive, try_acquire_slot, release_slot,
  write,
}
use byte_battle.Execution.Lookups.{load-top}

load_or_store-load :
    (k : SlotKey) (s : Slots)
    → load same_slot k ((load_or_store k s).1.table) ≡ some (load_or_store k s).0
unfolding load_or_store
load_or_store-load k s = elim (Option-cases (load same_slot k s.table)) [
  | inr (a, e) ↦ rw (e, load_or_store) e
  | inl e ↦ rw (e, load_or_store) (load-top k s.next_channel s.table)
]

load_or_store-known :
    (k : SlotKey) (a : ℕ) (s : Slots)
    → load same_slot k s.table ≡ some a
    → load_or_store k s ≡ (a, s)
unfolding load_or_store
load_or_store-known k a s e = rw (e, load_or_store) refl

-- A channel that takes an element gives it back without waiting, and then takes another.
send-receive :
    (a : ℕ) (s : Slots)
    → (try_send a s).0 ≡ true
    → (s2 : Slots) × (receive a (try_send a s).1 ≡ some s2)
      × (s2.table ≡ s.table)
      × ((try_send a s2).0 ≡ true)
unfolding try_send receive
send-receive a s h = elim (Bool-cases (ltb (s.buffered a) 1)) [
  | inr taken ↦ absurd (ground arith)
  | inl free ↦
      let filled : ℕ → ℕ = write a (s.buffered a + 1) s.buffered in
      let has_one : ltb 0 (filled a) ≡ true = ground arith in
      let left : ltb (write a (filled a - 1) filled a) 1 ≡ true = ground arith in
      (
        record s { buffered = write a (filled a - 1) filled },
        rw (free, has_one) refl,
        refl,
        rw (left) refl,
      )
]

send-table : (a : ℕ) (s : Slots) → (try_send a s).1.table ≡ s.table
unfolding try_send
send-table a s = elim (Bool-cases (ltb (s.buffered a) 1)) [
  | inl free ↦ rw (free) refl
  | inr taken ↦ rw (taken) refl
]

release-known :
    (k : SlotKey) (a : ℕ) (s : Slots)
    → load same_slot k s.table ≡ some a
    → release_slot k s ≡ receive a s
unfolding release_slot
release-known k a s e = rw (e, release_slot) refl

acquire-known :
    (k : SlotKey) (a : ℕ) (s : Slots)
    → load same_slot k s.table ≡ some a
    → try_acquire_slot k s ≡ try_send a s
unfolding try_acquire_slot
acquire-known k a s e = rw (load_or_store-known k a s e) refl

-- After a TryAcquireSlot that succeeds, ReleaseSlot does not wait, and TryAcquireSlot succeeds again.
pub try_acquire_slot-release_slot :
    (k : SlotKey) (s : Slots)
    → (try_acquire_slot k s).0 ≡ true
    → (s2 : Slots) × (release_slot k (try_acquire_slot k s).1 ≡ some s2)
      × ((try_acquire_slot k s2).0 ≡ true)
unfolding try_acquire_slot
try_acquire_slot-release_slot k s h =
    let a = (load_or_store k s).0 in
    let s1 : Slots = (load_or_store k s).1 in
    let entry : load same_slot k s1.table ≡ some a = load_or_store-load k s in
    let (s2, received, same, again) = send-receive a s1 h in
    (
      s2,
      release-known k a (try_send a s1).1 (ap (load same_slot k) (send-table a s1) ∙ entry)
          ∙ received,
      ap (λ r. r.0) (acquire-known k a s2 (ap (load same_slot k) same ∙ entry)) ∙ again,
    )
