-- ===== src/Execution/Schedule.antt =====
-- Requests of several goroutines for slots, one atomic step of a map or a channel at a time.
use byte_battle.Prelude.{
  ℕ, ◌==◌, if◌then◌else◌, Option, some, none, List, [], ◌∷◌, not, filter, Bool, ◌&&◌,
}
use byte_battle.Execution.{SlotKey, same_slot, Slots, load, load_or_store, try_send, receive}

-- Where a goroutine stands: outside; after LoadOrStore in TryAcquireSlot; between a TryAcquireSlot
-- that returned true and ReleaseSlot; after Load in ReleaseSlot.
pub data Place : Type 0 where
  outside : Place
  looked : SlotKey → ℕ → Place
  holding : SlotKey → ℕ → Place
  releasing : SlotKey → ℕ → Place

pub record System : Type 0 where
  pub slots : Slots
  pub places : ℕ → Place

abbrev pub move : ℕ → Place → (ℕ → Place) → ℕ → Place
move t p places u = if u == t then p else places u

-- A goroutine's next step, with the key that it asks for if it is outside, or the deletion of a
-- key whose channel is empty (runCleanup).
pub data Step : Type 0 where
  go : ℕ → SlotKey → Step
  sweep : SlotKey → Step

unfoldable pub look : ℕ → SlotKey → System → System
look t k s =
    let (a, slots) = load_or_store k s.slots in
    record { slots = slots; places = move t (looked k a) s.places }

unfoldable pub send : ℕ → SlotKey → ℕ → System → System
send t k a s =
    let (sent, slots) = try_send a s.slots in
    record { slots = slots; places = move t (if sent then holding k a else outside) s.places }

-- Load in ReleaseSlot; without an entry there is nothing to receive.
abbrev pub found : SlotKey → Option ℕ → Place
found k none = outside
found k (some b) = releasing k b

unfoldable pub find : ℕ → SlotKey → System → System
find t k s = record s { places = move t (found k (load same_slot k s.slots.table)) s.places }

-- A receive from an empty channel waits.
unfoldable pub take : ℕ → ℕ → System → System
take t b s = elim (receive b s.slots) [
  | none ↦ s
  | some slots ↦ record { slots = slots; places = move t outside s.places }
]

abbrev advance : ℕ → SlotKey → Place → System → System
advance t k outside s = look t k s
advance t k (looked l a) s = send t l a s
advance t k (holding l a) s = find t l s
advance t k (releasing l b) s = take t b s

abbrev is_empty : Slots → SlotKey × ℕ → Bool
is_empty s e = s.buffered (e.1) == 0

unfoldable pub step : Step → System → System
step (go t k) s = advance t k (s.places t) s
step (sweep k) s = record s {
  slots = record s.slots {
    table = filter (λ e. not (same_slot k e.0 && is_empty s.slots e)) s.slots.table;
  };
}

unfoldable pub run : List Step → System → System
run [] s = s
run (x ∷ xs) s = run xs (step x s)

abbrev pub start : System
start = record {
  slots = record { table = []; buffered = λ a. 0; next_channel = 0 };
  places = λ t. outside;
}
