-- ===== src/Execution/Exclusion.antt =====
-- Goroutines that ask for slots exclude each other, as long as no slot is swept.
use byte_battle.Prelude.{
  ℕ, suc, ◌+◌, ◌<◌, ◌≡◌, ◌≢◌, refl, sym, subst, inl, inr, ltb, some, List, [], ◌∷◌, map, arith,
  Bool-cases, Option-cases,
}
use byte_battle.Execution.{SlotKey, same_slot, load, write, load_or_store, try_send, receive}
use byte_battle.Execution.Schedule.{
  Place, outside, looked, holding, releasing, System, move, look, send, find, take, Step, go, step,
  run, start,
}
use byte_battle.Execution.Lookups.{load-new, load-top, move-same, move-All}

-- The goroutine works with the channel a for the key k.
abbrev pub Stands : SlotKey → ℕ → Place → Type 0
Stands k a outside = ⊥
Stands k a (looked l b) = (k ≡ l) × (a ≡ b)
Stands k a (holding l b) = (k ≡ l) × (a ≡ b)
Stands k a (releasing l b) = (k ≡ l) × (a ≡ b)

-- The goroutine's element is in the channel a.
abbrev pub Owns : ℕ → Place → Type 0
Owns a outside = ⊥
Owns a (looked l b) = ⊥
Owns a (holding l b) = a ≡ b
Owns a (releasing l b) = a ≡ b

pub record IsSafe (s : System) : Type 0 where
  pub entry :
      (t : ℕ) (k : SlotKey) (a : ℕ)
      → Stands k a (s.places t)
      → load same_slot k s.slots.table ≡ some a
  pub below :
      (k : SlotKey) (a : ℕ) → load same_slot k s.slots.table ≡ some a → a < s.slots.next_channel
  pub full : (t : ℕ) (a : ℕ) → Owns a (s.places t) → s.slots.buffered a ≡ 1
  pub one : (t u : ℕ) (a : ℕ) → Owns a (s.places t) → Owns a (s.places u) → t ≡ u

owner-Stands : (a : ℕ) (p : Place) → Owns a p → (k : SlotKey) × Stands k a p
owner-Stands a outside o = absurd o
owner-Stands a (looked l b) o = absurd o
owner-Stands a (holding l b) o = (l, (refl, o))
owner-Stands a (releasing l b) o = (l, (refl, o))

owned-below : (s : System) → IsSafe s → (t a : ℕ) → Owns a (s.places t) → a < s.slots.next_channel
owned-below s v t a o =
    let (k, stands) = owner-Stands a (s.places t) o in v.below k a (v.entry t k a stands)

-- A goroutine moves to a place where it owns nothing, and the channels that others own stay.
module _ (s : System) (v : IsSafe s) (t : ℕ) (p : Place) where
  one-released :
      ((a : ℕ) → ¬ (Owns a p))
      → (u u' : ℕ) (a : ℕ) → Owns a (move t p s.places u)
      → Owns a (move t p s.places u')
      → u ≡ u'
  one-released free =
      move-All (λ u q. (u' : ℕ) (a : ℕ) → Owns a q → Owns a (move t p s.places u') → u ≡ u') t p
        s.places (λ u' a o. absurd (free a o))
        λ u other.
          move-All (λ u' q. (a : ℕ) → Owns a (s.places u) → Owns a q → u ≡ u') t p s.places
            (λ a o o'. absurd (free a o')) λ u' other' a o o'. v.one u u' a o o'

  -- It moves to a place where it owns a channel that nobody else owns.
  one-owned :
      (b : ℕ)
      → ((a : ℕ) → Owns a p → a ≡ b)
      → ((u : ℕ) → u ≢ t → ¬ (Owns b (s.places u)))
      → (u u' : ℕ) (a : ℕ) → Owns a (move t p s.places u)
      → Owns a (move t p s.places u')
      → u ≡ u'
  one-owned b is_b others =
      move-All (λ u q. (u' : ℕ) (a : ℕ) → Owns a q → Owns a (move t p s.places u') → u ≡ u') t p
        s.places
        (move-All (λ u' q. (a : ℕ) → Owns a p → Owns a q → t ≡ u') t p s.places (λ a o o'. refl)
          λ u' other a o o'.
            absurd (others u' other (subst (λ x. Owns x (s.places u')) (is_b a o) o')))
        λ u other.
          move-All (λ u' q. (a : ℕ) → Owns a (s.places u) → Owns a q → u ≡ u') t p s.places
            (λ a o o'. absurd (others u other (subst (λ x. Owns x (s.places u)) (is_b a o') o)))
            λ u' other' a o o'. v.one u u' a o o'

below_next :
    (s : System)
    → IsSafe s
    → (k l : SlotKey) (b : ℕ)
    → load same_slot l ((k, s.slots.next_channel) ∷ s.slots.table) ≡ some b
    → b < suc s.slots.next_channel
unfolding load
below_next s v k l b h = elim (Bool-cases (same_slot l k)) [
  | inl same ↦ ground arith
  | inr other ↦ let lower = v.below l b (ground arith) in omega arith
]

look-IsSafe : (t : ℕ) (k : SlotKey) (s : System) → IsSafe s → IsSafe (look t k s)
unfolding look load_or_store
look-IsSafe t k s v = elim (Option-cases (load same_slot k s.slots.table)) [
  | inr (a, e) ↦
      rw (e, look, load_or_store)
        (record {
          entry =
              move-All
                (λ u q.
                  (l : SlotKey) (b : ℕ) → Stands l b q → load same_slot l s.slots.table ≡ some b)
                t (looked k a) s.places (λ l b (same, is_a). rw (same, is_a) e)
                λ u other. v.entry u;
          below = v.below;
          full =
              move-All (λ u q. (b : ℕ) → Owns b q → s.slots.buffered b ≡ 1) t (looked k a) s.places
                (λ b o. absurd o) (λ u other. v.full u);
          one = one-released s v t (looked k a) (λ b o. o);
        })
  | inl e ↦
      rw (e, look, load_or_store)
        (record {
          entry =
              move-All
                (λ u q.
                  (l : SlotKey) (b : ℕ)
                  → Stands l b q
                  → load same_slot l ((k, s.slots.next_channel) ∷ s.slots.table) ≡ some b)
                t (looked k s.slots.next_channel) s.places
                (λ l b (same, is_new).
                  rw (same, is_new) (load-top k s.slots.next_channel s.slots.table))
                λ u other l b stands.
                  load-new k l s.slots.next_channel b s.slots.table e (v.entry u l b stands);
          below = λ l b h. below_next s v k l b h;
          full =
              move-All
                (λ u q. (b : ℕ) → Owns b q → write s.slots.next_channel 0 s.slots.buffered b ≡ 1) t
                (looked k s.slots.next_channel) s.places (λ b o. absurd o)
                λ u other b o.
                  let lower = owned-below s v u b o in let held = v.full u b o in ground arith;
          one = one-released s v t (looked k s.slots.next_channel) (λ b o. o);
        })
]

send-IsSafe :
    (t : ℕ) (k : SlotKey) (a : ℕ) (s : System)
    → s.places t ≡ looked k a
    → IsSafe s
    → IsSafe (send t k a s)
unfolding send try_send
send-IsSafe t k a s at v = elim (Bool-cases (ltb (s.slots.buffered a) 1)) [
  | inl free ↦ rw (free) (record {
    entry =
        move-All
          (λ u q. (l : SlotKey) (b : ℕ) → Stands l b q → load same_slot l s.slots.table ≡ some b) t
          (holding k a) s.places (λ l b stands. v.entry t l b (subst (Stands l b) (sym at) stands))
          λ u other. v.entry u;
    below = v.below;
    full =
        move-All
          (λ u q. (b : ℕ) → Owns b q → write a (s.slots.buffered a + 1) s.slots.buffered b ≡ 1) t
          (holding k a) s.places (λ b o. ground arith)
          λ u other b o. let held = v.full u b o in ground arith;
    one =
        one-owned s v t (holding k a) a (λ b o. o)
          λ u other o. let held = v.full u a o in ground arith;
  })
  | inr taken ↦ rw (taken) (record {
    entry =
        move-All
          (λ u q. (l : SlotKey) (b : ℕ) → Stands l b q → load same_slot l s.slots.table ≡ some b) t
          outside s.places (λ l b o. absurd o) λ u other. v.entry u;
    below = v.below;
    full =
        move-All (λ u q. (b : ℕ) → Owns b q → s.slots.buffered b ≡ 1) t outside s.places
          (λ b o. absurd o) λ u other. v.full u;
    one = one-released s v t outside (λ b o. o);
  })
]

find-IsSafe :
    (t : ℕ) (k : SlotKey) (a : ℕ) (s : System)
    → s.places t ≡ holding k a
    → IsSafe s
    → IsSafe (find t k s)
unfolding find
find-IsSafe t k a s at v =
    let e : load same_slot k s.slots.table ≡ some a =
      v.entry t k a (subst (Stands k a) (sym at) (refl, refl)) in
    let mine : Owns a (s.places t) = subst (Owns a) (sym at) refl in
    rw (e) (record {
      entry =
          move-All
            (λ u q. (l : SlotKey) (b : ℕ) → Stands l b q → load same_slot l s.slots.table ≡ some b)
            t (releasing k a) s.places (λ l b (same, is_a). rw (same, is_a) e) λ u other. v.entry u;
      below = v.below;
      full =
          move-All (λ u q. (b : ℕ) → Owns b q → s.slots.buffered b ≡ 1) t (releasing k a) s.places
            (λ b o. rw (o) (v.full t a mine)) λ u other. v.full u;
      one = one-owned s v t (releasing k a) a (λ b o. o) λ u other o. other (v.one u t a o mine);
    })

take-IsSafe :
    (t : ℕ) (k : SlotKey) (a : ℕ) (s : System)
    → s.places t ≡ releasing k a
    → IsSafe s
    → IsSafe (take t a s)
unfolding take receive
take-IsSafe t k a s at v =
    let mine : Owns a (s.places t) = subst (Owns a) (sym at) refl in
    let one_left : s.slots.buffered a ≡ 1 = v.full t a mine in
    rw (one_left, take, receive)
      (record {
        entry =
            move-All
              (λ u q.
                (l : SlotKey) (b : ℕ) → Stands l b q → load same_slot l s.slots.table ≡ some b)
              t outside s.places (λ l b o. absurd o) λ u other. v.entry u;
        below = v.below;
        full =
            move-All (λ u q. (b : ℕ) → Owns b q → write a 0 s.slots.buffered b ≡ 1) t outside
              s.places (λ b o. absurd o)
              λ u other b o.
                let apart : b ≢ a =
                  λ e. other (v.one u t a (subst (λ x. Owns x (s.places u)) e o) mine) in
                let held = v.full u b o in ground arith;
        one = one-released s v t outside (λ b o. o);
      })

start-IsSafe : IsSafe start
unfolding load
start-IsSafe = record {
  entry = λ t k a o. absurd o;
  below = λ k a h. cc;
  full = λ t a o. absurd o;
  one = λ t u a o o'. absurd o;
}

step-IsSafe : (t : ℕ) (k : SlotKey) (s : System) → IsSafe s → IsSafe (step (go t k) s)
unfolding step
step-IsSafe t k s v = at_place (s.places t) refl
  where
    at_place : (p : Place) → s.places t ≡ p → IsSafe (step (go t k) s)
    at_place outside e = rw (e) (look-IsSafe t k s v)
    at_place (looked l a) e = rw (e) (send-IsSafe t l a s e v)
    at_place (holding l a) e = rw (e) (find-IsSafe t l a s e v)
    at_place (releasing l a) e = rw (e) (take-IsSafe t l a s e v)

-- The steps of goroutines, without a sweep between them.
abbrev pub moves : List (ℕ × SlotKey) → List Step
moves = map (λ (t, k). go t k)

run-IsSafe : (ms : List (ℕ × SlotKey)) (s : System) → IsSafe s → IsSafe (run (moves ms) s)
unfolding run
run-IsSafe [] s v = v
run-IsSafe ((t, k) ∷ ms) s v = run-IsSafe ms (step (go t k) s) (step-IsSafe t k s v)

-- However the steps of the goroutines that ask for slots and give them back are interleaved, if no
-- slot is swept then two goroutines never hold the slot of one key at once.
pub run-excludes :
    (ms : List (ℕ × SlotKey)) (t u : ℕ) (k : SlotKey) (a b : ℕ)
    → (run (moves ms) start).places t ≡ holding k a
    → (run (moves ms) start).places u ≡ holding k b
    → t ≡ u
run-excludes ms t u k a b at at' =
    let s : System = run (moves ms) start in
    let v : IsSafe s = run-IsSafe ms start start-IsSafe in
    let e : load same_slot k s.slots.table ≡ some a =
      v.entry t k a (subst (Stands k a) (sym at) (refl, refl)) in
    let e' : load same_slot k s.slots.table ≡ some b =
      v.entry u k b (subst (Stands k b) (sym at') (refl, refl)) in
    let same : a ≡ b = cc in
    v.one t u a (subst (Owns a) (sym at) refl) (subst (Owns a) (sym at') same)

-- However the steps of the goroutines that ask for slots and give them back are interleaved, if no
-- slot is swept then ReleaseSlot never waits: its next step receives, and the goroutine is outside.
pub run-releases :
    (ms : List (ℕ × SlotKey)) (t : ℕ) (k l : SlotKey) (a : ℕ)
    → (run (moves ms) start).places t ≡ releasing k a
    → (step (go t l) (run (moves ms) start)).places t ≡ outside
unfolding step take receive
run-releases ms t k l a at =
    let s : System = run (moves ms) start in
    let v : IsSafe s = run-IsSafe ms start start-IsSafe in
    let held : s.slots.buffered a ≡ 1 = v.full t a (subst (Owns a) (sym at) refl) in
    rw (at, take, receive, held) (move-same t outside s.places)
