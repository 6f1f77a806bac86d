-- ===== src/Tests/Rooms.antt =====
-- The hub on three clients.
use byte_battle.Prelude.{
  ℕ, ◌+◌, ◌/◌, ◌≡◌, refl, none, false, some, List, [], ◌∷◌, if◌then◌else◌, ◌==◌, arith,
}
use byte_battle.Hub.{Hub, Client, new_hub, new_client, send, locate, enter, leave, broadcast, is_in}
use byte_battle.Hub.Delivery.{broadcast-delivers}
use byte_battle.Hub.History.{Call, joins, leaves, broadcasts, tells, run, IsBounded}
use byte_battle.Hub.Reach.{run-delivers}
use byte_battle.Hub.Races.{join-lost}

-- Client n belongs to user 10 + n / 2.
abbrev clients : ℕ → Client
clients n = new_client (10 + n / 2)

abbrev talk : List Call
talk =
    joins 7 1
    ∷ joins 7 2
    ∷ joins 8 1
    ∷ broadcasts 7 500
    ∷ leaves 7 1
    ∷ tells 7 11 501
    ∷ leaves 7 3
    ∷ []

-- The rooms after two joins.
abbrev pub two_clients : Hub
two_clients = record {
  rooms = λ g. if g == 7 then some 0 else none;
  members = λ r. if r == 0 then 1 ∷ 2 ∷ [] else [];
  next_room = 1;
  clients = clients;
}

broadcast-delivers_example : (broadcast 7 500 two_clients).clients 2 ≡ send 500 (clients 2)
broadcast-delivers_example = broadcast-delivers 7 500 2 two_clients (refl, (refl, tt))

clients-IsBounded : IsBounded clients
unfolding new_client
clients-IsBounded c = omega arith

-- Client 1 is alone in room 0 of game 7; client 3 joins while client 1 leaves.
abbrev one_client : Hub
one_client = record two_clients { members = λ r. if r == 0 then 1 ∷ [] else [] }

join-lost_example :
    (is_in 7 3 (enter 0 3 (leave 7 1 one_client)) ≡ false)
    × (broadcast 7 500 (enter 0 3 (leave 7 1 one_client)) ≡ enter 0 3 (leave 7 1 one_client))
unfolding locate
join-lost_example = join-lost 7 3 1 500 0 one_client refl refl

run-delivers_example :
    (broadcast 7 502 (run talk (new_hub clients))).clients 2
    ≡ send 502 ((run talk (new_hub clients)).clients 2)
run-delivers_example = run-delivers 7 502 2 talk clients
