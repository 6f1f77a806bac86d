-- ===== src/Hub.antt =====
-- internal/ws: the hub of WebSocket rooms (hub.go) and the send queue of a client (client.go).
-- A room is a cell of a heap, since Join holds on to a room that Leave may take out of the map
-- meanwhile. A Go map's iteration order is the order of the list.
pub mod Rooms
pub mod Distinct
pub mod Delivery
pub mod History
pub mod Reach
pub mod Races
use byte_battle.Prelude.{
  ℕ, suc, ◌==◌, ltb, if◌then◌else◌, Bool, true, false, Option, none, some, List, [], ◌∷◌, ◌++◌, any,
  delete, length, not,
}
use byte_battle.Db.Rows.{Uuid}

-- `Client`: the buffer of the channel `send` and the flag `closed`. The connection is left out.
pub record Client : Type 0 where
  pub user_id : Uuid
  pub queue : List ℕ
  pub closed : Bool

-- The capacity of the channel.
abbrev pub send_buffer : ℕ
send_buffer = 64

unfoldable pub new_client : Uuid → Client
new_client u = record { user_id = u; queue = []; closed = false }

-- `Client.Close`: the first call closes the channel, a later one does nothing.
unfoldable pub close : Client → Client
close c = record c { closed = true }

-- `Client.Send`: a message is dropped where the client is closed or its buffer is full.
unfoldable pub send : ℕ → Client → Client
send msg c =
    if c.closed
    then c
    else if ltb (length c.queue) send_buffer
    then record c { queue = c.queue ++ (msg ∷ []) }
    else c

-- `Hub`, with the heap of its rooms and the clients. `rooms` is the map from games to rooms.
pub record Hub : Type 0 where
  pub rooms : ℕ → Option ℕ
  pub members : ℕ → List ℕ
  pub next_room : ℕ
  pub clients : ℕ → Client

abbrev pub assign {ℓ} : {A : Type ℓ} → (ℕ → A) → ℕ → A → ℕ → A
assign f k v j = if k == j then v else f j

unfoldable pub new_hub : (ℕ → Client) → Hub
new_hub clients = record { rooms = λ _. none; members = λ _. []; next_room = 0; clients = clients }

-- The first critical section of Join, under `h.mu`: the room of the game, made if there is none.
unfoldable pub locate : ℕ → Hub → ℕ × Hub
locate game h = elim (h.rooms game) [
  | some r ↦ (r, h)
  | none ↦ (
    h.next_room,
    record h {
      rooms = assign h.rooms game (some h.next_room);
      members = assign h.members h.next_room [];
      next_room = suc h.next_room;
    },
  )
]

-- r.clients[c] = struct{}{}
abbrev pub add_client : ℕ → List ℕ → List ℕ
add_client c cs = if any (λ d. d == c) cs then cs else cs ++ (c ∷ [])

-- The second critical section of Join, under `r.mu`.
unfoldable pub enter : ℕ → ℕ → Hub → Hub
enter r c h = record h { members = assign h.members r (add_client c (h.members r)) }

unfoldable pub join : ℕ → ℕ → Hub → Hub
unfolding locate enter
join game c h = let (r, h') = locate game h in enter r c h'

abbrev pub is_nil : List ℕ → Bool
is_nil [] = true
is_nil (_ ∷ _) = false

-- `Leave` holds `h.mu` throughout. An empty room is taken out of the map.
unfoldable pub leave : ℕ → ℕ → Hub → Hub
leave game c h = elim (h.rooms game) [
  | none ↦ h
  | some r ↦
      let rest = delete (λ d. d == c) (h.members r) in
      record h {
        rooms = if is_nil rest then assign h.rooms game none else h.rooms;
        members = assign h.members r rest;
      }
]

-- The loop of Broadcast.
unfoldable pub send_all : ℕ → List ℕ → (ℕ → Client) → ℕ → Client
send_all msg [] clients = clients
send_all msg (c ∷ cs) clients = send_all msg cs (assign clients c (send msg (clients c)))

unfoldable pub broadcast : ℕ → ℕ → Hub → Hub
unfolding send_all
broadcast game msg h = elim (h.rooms game) [
  | none ↦ h
  | some r ↦ record h { clients = send_all msg (h.members r) h.clients }
]

-- The loop of SendToUser stops at the first client of the user.
unfoldable pub send_first : Uuid → ℕ → List ℕ → (ℕ → Client) → ℕ → Client
send_first u msg [] clients = clients
send_first u msg (c ∷ cs) clients =
    if (clients c).user_id == u
    then assign clients c (send msg (clients c))
    else send_first u msg cs clients

unfoldable pub send_to_user : ℕ → Uuid → ℕ → Hub → Hub
unfolding send_first
send_to_user game u msg h = elim (h.rooms game) [
  | none ↦ h
  | some r ↦ record h { clients = send_first u msg (h.members r) h.clients }
]

-- The clients that a message to the room of a game reaches.
abbrev pub members_of : ℕ → Hub → List ℕ
members_of game h = elim (h.rooms game) [ none ↦ [] | some r ↦ h.members r ]

abbrev pub is_in : ℕ → ℕ → Hub → Bool
is_in game c h = any (λ d. d == c) (members_of game h)
