-- ===== src/Hub/Rooms.antt =====
-- Seen as a set of clients for each game, Join adds one client and Leave takes one out.
use byte_battle.Prelude.{
  ℕ, ◌<◌, ◌≡◌, refl, ◌==◌, true, false, ◌&&◌, ◌||◌, not, some, List, [], ◌∷◌, any, delete, arith,
  Option-cases, inl, inr, any-append,
}
use byte_battle.Hub.{Hub, join, leave, add_client, is_in, is_nil}

-- Rooms that are in the map have been made, belong to one game, and are not empty.
pub record IsTidy (h : Hub) : Type 0 where
  pub made : (g r : ℕ) → h.rooms g ≡ some r → r < h.next_room
  pub apart : (g k r : ℕ) → h.rooms g ≡ some r → h.rooms k ≡ some r → g ≡ k
  pub busy : (g r : ℕ) → h.rooms g ≡ some r → is_nil (h.members r) ≡ false

any_same : (c d : ℕ) (cs : List ℕ) → c ≡ d → any (λ x. x == d) cs ≡ any (λ x. x == c) cs
any_same c d cs e = rw e

any-add_client :
    (c d : ℕ) (cs : List ℕ)
    → any (λ x. x == d) (add_client c cs) ≡ ((c == d) || any (λ x. x == d) cs)
any-add_client c d cs = ground (arith, any-append (λ x. x == d) cs (c ∷ []), any_same c d cs)

any-delete :
    (c d : ℕ) (cs : List ℕ)
    → any (λ x. x == d) (delete (λ x. x == c) cs) ≡ (not (c == d) && any (λ x. x == d) cs)
any-delete c d [] = ground arith
any-delete c d (x ∷ cs) = ground (arith, any-delete c d cs)

is_nil-any : (d : ℕ) (cs : List ℕ) → is_nil cs ≡ true → any (λ x. x == d) cs ≡ false
is_nil-any d [] e = refl
is_nil-any d (c ∷ cs) e = cc

add_client-busy : (c : ℕ) (cs : List ℕ) → is_nil (add_client c cs) ≡ false
add_client-busy c [] = refl
add_client-busy c (x ∷ cs) = ground arith

module _ (h : Hub) (v : IsTidy h) where
  -- Join keeps the rooms tidy.
  pub join-IsTidy : (g c : ℕ) → IsTidy (join g c h)
  unfolding join
  join-IsTidy g c = elim (Option-cases (h.rooms g)) [
    | inl missing ↦ record {
      made = λ k r e. ground (arith, v.made k r);
      apart = λ k l r e f. ground (arith, v.apart k l r, v.made k r, v.made l r);
      busy = λ k r e. ground (arith, v.busy k r, v.made k r, add_client-busy c []);
    }
    | inr (s, found) ↦ record {
      made = λ k r e. ground (arith, v.made k r);
      apart = λ k l r e f. ground (arith, v.apart k l r);
      busy = λ k r e. ground (arith, v.busy k r, add_client-busy c (h.members r));
    }
  ]

  -- After Join, a client is in a game's room exactly if it was, or is the one that joined it.
  pub is_in-join : (g k c d : ℕ) → is_in k d (join g c h) ≡ (((g == k) && (c == d)) || is_in k d h)
  unfolding join
  is_in-join g k c d = elim (Option-cases (h.rooms g)) [
    | inl missing ↦ elim (Option-cases (h.rooms k)) [
      | inl e ↦ ground (arith, any-add_client c d [])
      | inr (r, e) ↦ ground (arith, v.made k r e)
    ]
    | inr (s, found) ↦ elim (Option-cases (h.rooms k)) [
      | inl e ↦ ground arith
      | inr (r, e) ↦ ground (arith, v.apart g k r, any-add_client c d (h.members r))
    ]
  ]

  -- Leave keeps the rooms tidy.
  pub leave-IsTidy : (g c : ℕ) → IsTidy (leave g c h)
  unfolding leave
  leave-IsTidy g c = elim (Option-cases (h.rooms g)) [
    | inl missing ↦ record {
      made = λ k r e. ground (arith, v.made k r);
      apart = λ k l r e f. ground (arith, v.apart k l r);
      busy = λ k r e. ground (arith, v.busy k r);
    }
    | inr (s, found) ↦ record {
      made = λ k r e. ground (arith, v.made k r);
      apart = λ k l r e f. ground (arith, v.apart k l r);
      busy = λ k r e. ground (arith, v.busy k r, v.apart g k r);
    }
  ]

  -- After Leave, a client is in a game's room exactly if it was and is not the one that left it.
  pub is_in-leave :
      (g k c d : ℕ) → is_in k d (leave g c h) ≡ (not ((g == k) && (c == d)) && is_in k d h)
  unfolding leave
  is_in-leave g k c d = elim (Option-cases (h.rooms g)) [
    | inl missing ↦ elim (Option-cases (h.rooms k)) [
      | inl e ↦ ground arith
      | inr (r, e) ↦ ground arith
    ]
    | inr (s, found) ↦ elim (Option-cases (h.rooms k)) [
      | inl e ↦ ground arith
      | inr (r, e) ↦ ground (
        arith,
        v.apart g k r,
        any-delete c d (h.members r),
        is_nil-any d (delete (λ x. x == c) (h.members r)),
      )
    ]
  ]
