-- ===== src/Hub/History.antt =====
-- The hub over a history of calls, one after another.
use byte_battle.Prelude.{
  ℕ, ◌≤◌, ◌≡◌, refl, ap, ◌∙◌, inl, inr, ◌==◌, if◌then◌else◌, Bool, true, false, ◌&&◌, List, [], ◌∷◌,
  length, arith, Option-cases, Bool-cases,
}
use byte_battle.Db.Rows.{Uuid}
use byte_battle.Hub.{
  Hub, Client, new_hub, send, send_buffer, send_all, send_first, join, leave, broadcast,
  send_to_user, is_in, assign, locate, enter,
}
use byte_battle.Hub.Rooms.{IsTidy, join-IsTidy, leave-IsTidy, is_in-join, is_in-leave}
use byte_battle.Hub.Delivery.{send-bounded}

pub data Call : Type 0 where
  joins leaves : ℕ → ℕ → Call
  broadcasts : ℕ → ℕ → Call
  tells : ℕ → Uuid → ℕ → Call

unfoldable pub call : Call → Hub → Hub
call (joins game c) h = join game c h
call (leaves game c) h = leave game c h
call (broadcasts game msg) h = broadcast game msg h
call (tells game u msg) h = send_to_user game u msg h

unfoldable pub run : List Call → Hub → Hub
run [] h = h
run (k ∷ ks) h = run ks (call k h)

-- Whether a client is in the room of a game, by the last Join or Leave of the two.
abbrev pub presence : ℕ → ℕ → Call → Bool → Bool
presence g c (joins k d) b = if k == g && d == c then true else b
presence g c (leaves k d) b = if k == g && d == c then false else b
presence g c _ b = b

abbrev pub last_presence : ℕ → ℕ → Bool → List Call → Bool
last_presence g c b [] = b
last_presence g c b (k ∷ ks) = last_presence g c (presence g c k b) ks

same_rooms : (game msg : ℕ) (h : Hub) → IsTidy h → IsTidy (broadcast game msg h)
unfolding broadcast
same_rooms game msg h v = elim (Option-cases (h.rooms game)) [
  | inl e ↦ rw (e, broadcast) v
  | inr (r, e) ↦ rw (e, broadcast) (record { made = v.made; apart = v.apart; busy = v.busy })
]

same_rooms_told : (game u msg : ℕ) (h : Hub) → IsTidy h → IsTidy (send_to_user game u msg h)
unfolding send_to_user
same_rooms_told game u msg h v = elim (Option-cases (h.rooms game)) [
  | inl e ↦ rw (e, send_to_user) v
  | inr (r, e) ↦ rw (e, send_to_user) (record { made = v.made; apart = v.apart; busy = v.busy })
]

is_in-broadcast : (g c game msg : ℕ) (h : Hub) → is_in g c (broadcast game msg h) ≡ is_in g c h
unfolding broadcast
is_in-broadcast g c game msg h = ground arith

is_in-told : (g c game u msg : ℕ) (h : Hub) → is_in g c (send_to_user game u msg h) ≡ is_in g c h
unfolding send_to_user
is_in-told g c game u msg h = ground arith

call-IsTidy : (k : Call) (h : Hub) → IsTidy h → IsTidy (call k h)
unfolding call
call-IsTidy (joins game c) h v = join-IsTidy h v game c
call-IsTidy (leaves game c) h v = leave-IsTidy h v game c
call-IsTidy (broadcasts game msg) h v = same_rooms game msg h v
call-IsTidy (tells game u msg) h v = same_rooms_told game u msg h v

is_in-call :
    (g c : ℕ) (k : Call) (h : Hub) → IsTidy h → is_in g c (call k h) ≡ presence g c k (is_in g c h)
unfolding call
is_in-call g c (joins game d) h v = ground (arith, is_in-join h v game g d c)
is_in-call g c (leaves game d) h v = ground (arith, is_in-leave h v game g d c)
is_in-call g c (broadcasts game msg) h v = is_in-broadcast g c game msg h
is_in-call g c (tells game u msg) h v = is_in-told g c game u msg h

is_in-run :
    (g c : ℕ) (ks : List Call) (h : Hub)
    → IsTidy h
    → is_in g c (run ks h) ≡ last_presence g c (is_in g c h) ks
unfolding run
is_in-run g c [] h v = refl
is_in-run g c (k ∷ ks) h v =
    is_in-run g c ks (call k h) (call-IsTidy k h v)
    ∙ ap (λ b. last_presence g c b ks) (is_in-call g c k h v)

new_hub-IsTidy : (clients : ℕ → Client) → IsTidy (new_hub clients)
unfolding new_hub
new_hub-IsTidy clients = record {
  made = λ g r e. absurd (ground arith);
  apart = λ g k r e f. absurd (ground arith);
  busy = λ g r e. absurd (ground arith);
}

-- From a new hub and through calls that run one after another, a client is in the room of a game
-- exactly if its last Join or Leave of that game was a Join.
pub run-new_hub :
    (g c : ℕ) (ks : List Call) (clients : ℕ → Client)
    → is_in g c (run ks (new_hub clients)) ≡ last_presence g c false ks
unfolding new_hub
run-new_hub g c ks clients = is_in-run g c ks (new_hub clients) (new_hub-IsTidy clients)

-- Every queue is within its buffer.
abbrev pub IsBounded : (ℕ → Client) → Type 0
IsBounded clients = (c : ℕ) → length (clients c).queue ≤ send_buffer

assign-IsBounded :
    (clients : ℕ → Client) (msg c : ℕ)
    → IsBounded clients
    → IsBounded (assign clients c (send msg (clients c)))
assign-IsBounded clients msg c b d = elim (Bool-cases (c == d)) [
  | inl hit ↦ rw hit (send-bounded msg (clients c) (b c))
  | inr miss ↦ rw miss (b d)
]

send_all-IsBounded :
    (msg : ℕ) (cs : List ℕ) (clients : ℕ → Client)
    → IsBounded clients
    → IsBounded (send_all msg cs clients)
unfolding send_all
send_all-IsBounded msg [] clients b = b
send_all-IsBounded msg (c ∷ cs) clients b =
    send_all-IsBounded msg cs (assign clients c (send msg (clients c)))
      (assign-IsBounded clients msg c b)

send_first-IsBounded :
    (u msg : ℕ) (cs : List ℕ) (clients : ℕ → Client)
    → IsBounded clients
    → IsBounded (send_first u msg cs clients)
unfolding send_first
send_first-IsBounded u msg [] clients b = b
send_first-IsBounded u msg (c ∷ cs) clients b = elim (Bool-cases ((clients c).user_id == u)) [
  | inl hit ↦ rw hit (assign-IsBounded clients msg c b)
  | inr miss ↦ rw miss (send_first-IsBounded u msg cs clients b)
]

call-IsBounded : (k : Call) (h : Hub) → IsBounded h.clients → IsBounded (call k h).clients
unfolding call join locate enter leave broadcast send_to_user
call-IsBounded (joins game c) h b = elim (Option-cases (h.rooms game)) [
  | inl e ↦ rw (e, locate) b
  | inr (r, e) ↦ rw (e, locate) b
]
call-IsBounded (leaves game c) h b = elim (Option-cases (h.rooms game)) [
  | inl e ↦ rw (e, leave) b
  | inr (r, e) ↦ rw (e, leave) b
]
call-IsBounded (broadcasts game msg) h b = elim (Option-cases (h.rooms game)) [
  | inl e ↦ rw (e, broadcast) b
  | inr (r, e) ↦ rw (e, broadcast) (send_all-IsBounded msg (h.members r) h.clients b)
]
call-IsBounded (tells game u msg) h b = elim (Option-cases (h.rooms game)) [
  | inl e ↦ rw (e, send_to_user) b
  | inr (r, e) ↦ rw (e, send_to_user) (send_first-IsBounded u msg (h.members r) h.clients b)
]

-- Through any calls, queues that are within the 64 messages of their channels stay within them.
pub run-IsBounded : (ks : List Call) (h : Hub) → IsBounded h.clients → IsBounded (run ks h).clients
unfolding run
run-IsBounded [] h b = b
run-IsBounded (k ∷ ks) h b = run-IsBounded ks (call k h) (call-IsBounded k h b)
