-- ===== src/Hub/Distinct.antt =====
-- No client is twice in a room, so that a broadcast reaches it once.
use byte_battle.Prelude.{
  ℕ, ◌≡◌, refl, inl, inr, Bool-cases, ◌==◌, false, List, [], ◌∷◌, ◌++◌, any, delete, arith,
  Option-cases, any-append,
}
use byte_battle.Hub.{Hub, assign, leave, locate, enter, add_client}

-- No client is twice in a room.
abbrev pub IsDistinct : List ℕ → Type 0
IsDistinct [] = Unit
IsDistinct (c ∷ cs) = (any (λ d. d == c) cs ≡ false) × IsDistinct cs

-- The rooms without a client twice.
abbrev pub AllDistinct : Hub → Type 0
AllDistinct h = (r : ℕ) → IsDistinct (h.members r)

add_client-IsDistinct : (c : ℕ) (cs : List ℕ) → IsDistinct cs → IsDistinct (add_client c cs)
add_client-IsDistinct c cs u = elim (Bool-cases (any (λ d. d == c) cs)) [
  | inl old ↦ rw old u
  | inr new ↦ rw new (extended cs u new)
]
  where
    extended :
        (ds : List ℕ) → IsDistinct ds → any (λ d. d == c) ds ≡ false → IsDistinct (ds ++ (c ∷ []))
    extended [] u new = (refl, tt)
    extended (d ∷ ds) u new =
        (ground (arith, any-append (λ x. x == d) ds (c ∷ [])), extended ds u.1 (ground arith))

delete-any :
    (c d : ℕ) (cs : List ℕ)
    → any (λ x. x == d) cs ≡ false
    → any (λ x. x == d) (delete (λ x. x == c) cs) ≡ false
delete-any c d [] h = refl
delete-any c d (x ∷ cs) h = ground (arith, delete-any c d cs)

delete-IsDistinct : (c : ℕ) (cs : List ℕ) → IsDistinct cs → IsDistinct (delete (λ d. d == c) cs)
delete-IsDistinct c [] u = tt
delete-IsDistinct c (d ∷ cs) u = elim (Bool-cases (d == c)) [
  | inl hit ↦ rw hit (delete-IsDistinct c cs u.1)
  | inr miss ↦ rw miss (delete-any c d cs u.0, delete-IsDistinct c cs u.1)
]

-- A room keeps its clients distinct if it is assigned distinct ones.
assigned :
    (f : ℕ → List ℕ) (r : ℕ) (cs : List ℕ)
    → ((k : ℕ) → IsDistinct (f k))
    → IsDistinct cs
    → (k : ℕ) → IsDistinct (assign f r cs k)
assigned f r cs old new k = elim (Bool-cases (r == k)) [
  | inl hit ↦ rw hit new
  | inr miss ↦ rw miss (old k)
]

pub locate-AllDistinct : (game : ℕ) (h : Hub) → AllDistinct h → AllDistinct (locate game h).1
unfolding locate
locate-AllDistinct game h u = elim (Option-cases (h.rooms game)) [
  | inl missing ↦ rw (missing, locate) (assigned h.members h.next_room [] u tt)
  | inr (r, found) ↦ rw (found, locate) u
]

-- Join and Leave put no client twice into a room, also where their halves are interleaved.
pub enter-AllDistinct : (r c : ℕ) (h : Hub) → AllDistinct h → AllDistinct (enter r c h)
unfolding enter
enter-AllDistinct r c h u = assigned h.members r _ u (add_client-IsDistinct c (h.members r) (u r))

pub leave-AllDistinct : (game c : ℕ) (h : Hub) → AllDistinct h → AllDistinct (leave game c h)
unfolding leave
leave-AllDistinct game c h u = elim (Option-cases (h.rooms game)) [
  | inl missing ↦ rw (missing, leave) u
  | inr (r, found) ↦
      rw (found, leave) (assigned h.members r _ u (delete-IsDistinct c (h.members r) (u r)))
]
