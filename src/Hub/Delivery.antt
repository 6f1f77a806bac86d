-- ===== src/Hub/Delivery.antt =====
-- Which clients a message to a room reaches, and what their queues hold.
use byte_battle.Prelude.{
  ℕ, ◌≤◌, ◌≡◌, ◌≢◌, refl, subst, ◌⊎◌, inl, inr, ◌==◌, if◌then◌else◌, true, false, List, [], ◌∷◌,
  ◌++◌, any, length, length-append, arith, Option-cases,
}
use native.Mathlib.Decide.{ℕ_discrete}
use byte_battle.Db.Rows.{Uuid}
use byte_battle.Hub.{
  Hub, Client, send, close, send_buffer, send_all, send_first, broadcast, send_to_user, is_in,
  members_of, assign,
}
use byte_battle.Hub.Distinct.{IsDistinct}

send_all_lem :
    (msg : ℕ) (cs : List ℕ) (clients : ℕ → Client) (c : ℕ)
    → IsDistinct cs
    → send_all msg cs clients c ≡ (if any (λ d. d == c) cs then send msg (clients c) else clients c)
unfolding send_all
send_all_lem msg [] clients c u = refl
send_all_lem msg (d ∷ cs) clients c u =
    ground (
      arith,
      send_all_lem msg cs (assign clients d (send msg (clients d))) c u.1,
      same_client d c cs,
    )
  where
    same_client : (d c : ℕ) (cs : List ℕ) → d ≡ c → any (λ x. x == d) cs ≡ any (λ x. x == c) cs
    same_client d c cs e = rw e

-- Broadcast gives the message once to each client in the room, and to nobody else.
pub broadcast-delivers :
    (game msg c : ℕ) (h : Hub)
    → IsDistinct (members_of game h)
    → (broadcast game msg h).clients c
      ≡ (if is_in game c h then send msg (h.clients c) else h.clients c)
unfolding broadcast
broadcast-delivers game msg c h u = elim (Option-cases (h.rooms game)) [
  | inl missing ↦ ground arith
  | inr (r, found) ↦ ground (arith, send_all_lem msg (h.members r) h.clients c)
]

-- What SendToUser may do to one client.
abbrev Receives : Uuid → ℕ → List ℕ → (ℕ → Client) → (ℕ → Client) → ℕ → Type 0
Receives u msg cs old new c =
    (any (λ d. d == c) cs ≡ true) × ((old c).user_id ≡ u) × (new c ≡ send msg (old c))

test_false : (a b : ℕ) → a ≢ b → (a == b) ≡ false
test_false a b h = ground arith

test_true : (a b : ℕ) → a ≡ b → (a == b) ≡ true
test_true a b h = ground arith

-- Either no client of the room belongs to the user and nothing changes, or one that does is sent
-- the message and no other client changes.
abbrev pub OneReceives : Uuid → ℕ → List ℕ → (ℕ → Client) → (ℕ → Client) → Type 0
OneReceives u msg cs old new =
    ((new ≡ old) × ((c : ℕ) → any (λ d. d == c) cs ≡ true → (old c).user_id ≢ u))
    ⊎ ((c : ℕ) × Receives u msg cs old new c × ((d : ℕ) → d ≢ c → new d ≡ old d))

send_first_lem :
    (u msg : ℕ) (cs : List ℕ) (clients : ℕ → Client)
    → OneReceives u msg cs clients (send_first u msg cs clients)
unfolding send_first
send_first_lem u msg [] clients = inl (refl, λ c e. cc)
send_first_lem u msg (c ∷ cs) clients = elim (ℕ_discrete (clients c).user_id u) [
  | yes mine ↦
      rw (test_true (clients c).user_id u mine)
        (inr (c, (ground arith, mine, ground arith), λ d ne. ground arith))
  | no other ↦ rw (test_false (clients c).user_id u other) (elim (send_first_lem u msg cs clients) [
    | inl (same, nobody) ↦ inl (
      same,
      λ d m. elim (ℕ_discrete c d) [
        | yes e ↦ subst (λ x. (clients x).user_id ≢ u) e other
        | no ne ↦ nobody d (ground arith)
      ],
    )
    | inr (d, (there, mine, got), rest) ↦ inr (d, (ground arith, mine, got), rest)
  ])
]

-- A message for a user goes to exactly one client of that user in the room of the game, and to
-- nobody when the user has none there.
pub send_to_user-one :
    (game u msg : ℕ) (h : Hub)
    → OneReceives u msg (members_of game h) h.clients (send_to_user game u msg h).clients
unfolding send_to_user
send_to_user-one game u msg h = elim (Option-cases (h.rooms game)) [
  | inl missing ↦ rw (missing, members_of, send_to_user) (inl (refl, λ c e. cc))
  | inr (r, found) ↦
      rw (found, members_of, send_to_user) (send_first_lem u msg (h.members r) h.clients)
]

-- The queue of a client stays within its buffer.
pub send-bounded :
    (msg : ℕ) (c : Client) → length c.queue ≤ send_buffer → length (send msg c).queue ≤ send_buffer
unfolding send
send-bounded msg c h = ground (arith, length-append c.queue (msg ∷ []))

-- What is queued stays queued, and a closed client takes nothing.
pub send-appends :
    (msg : ℕ) (c : Client)
    → ((send msg c).queue ≡ c.queue) ⊎ ((send msg c).queue ≡ c.queue ++ (msg ∷ []))
unfolding send
send-appends msg c = ground arith

pub send-close : (msg : ℕ) (c : Client) → send msg (close c) ≡ close c
unfolding send close
send-close msg c = refl
