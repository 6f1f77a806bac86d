-- ===== src/Hub/Reach.antt =====
-- Whom a broadcast reaches after any history of calls.
use byte_battle.Prelude.{
  ℕ, ◌≡◌, ◌∙◌, ap, inl, inr, if◌then◌else◌, false, List, [], ◌∷◌, Option-cases,
}
use byte_battle.Hub.{Hub, Client, new_hub, send, join, broadcast, send_to_user, members_of, locate}
use byte_battle.Hub.Distinct.{
  IsDistinct, AllDistinct, locate-AllDistinct, enter-AllDistinct, leave-AllDistinct,
}
use byte_battle.Hub.Delivery.{broadcast-delivers}
use byte_battle.Hub.History.{
  Call, joins, leaves, broadcasts, tells, call, run, last_presence, run-new_hub,
}

call-AllDistinct : (k : Call) (h : Hub) → AllDistinct h → AllDistinct (call k h)
unfolding call join broadcast send_to_user
call-AllDistinct (joins game c) h v =
    enter-AllDistinct (locate game h).0 c (locate game h).1 (locate-AllDistinct game h v)
call-AllDistinct (leaves game c) h v = leave-AllDistinct game c h v
call-AllDistinct (broadcasts game msg) h v = elim (Option-cases (h.rooms game)) [
  | inl e ↦ rw (e, broadcast) v
  | inr (r, e) ↦ rw (e, broadcast) v
]
call-AllDistinct (tells game u msg) h v = elim (Option-cases (h.rooms game)) [
  | inl e ↦ rw (e, send_to_user) v
  | inr (r, e) ↦ rw (e, send_to_user) v
]

run-AllDistinct : (ks : List Call) (h : Hub) → AllDistinct h → AllDistinct (run ks h)
unfolding run
run-AllDistinct [] h v = v
run-AllDistinct (k ∷ ks) h v = run-AllDistinct ks (call k h) (call-AllDistinct k h v)

members_of-IsDistinct : (game : ℕ) (h : Hub) → AllDistinct h → IsDistinct (members_of game h)
members_of-IsDistinct game h v = elim (Option-cases (h.rooms game)) [
  | inl e ↦ rw (members_of, e) tt
  | inr (r, e) ↦ rw (members_of, e) (v r)
]

new_hub-AllDistinct : (clients : ℕ → Client) → AllDistinct (new_hub clients)
unfolding new_hub
new_hub-AllDistinct clients r = tt

-- From a new hub and through calls that run one after another, a broadcast to a game is sent once
-- to each client whose last Join or Leave of that game was a Join, and to nobody else.
pub run-delivers :
    (game msg c : ℕ) (ks : List Call) (clients : ℕ → Client)
    → let h = run ks (new_hub clients) in
      (broadcast game msg h).clients c
      ≡ (if last_presence game c false ks then send msg (h.clients c) else h.clients c)
run-delivers game msg c ks clients =
    let h = run ks (new_hub clients) in
    broadcast-delivers game msg c h (
      members_of-IsDistinct game h
        (run-AllDistinct ks (new_hub clients) (new_hub-AllDistinct clients)))
    ∙ ap (λ b. if b then send msg (h.clients c) else h.clients c) (run-new_hub game c ks clients)
