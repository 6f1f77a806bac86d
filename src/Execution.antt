-- ===== src/Execution.antt =====
-- internal/service/execution_service.go: the rate limiters and the slots of the users. A sync.Map is
-- a list of keys with values, and a channel of capacity 1 a cell of `buffered` that holds 0 or 1.
use byte_battle.Prelude.{
  ℕ, suc, ◌+◌, ◌-◌, ◌==◌, ltb, if◌then◌else◌, Bool, true, false, ◌&&◌, ◌||◌, not, Option, some,
  none, List, [], ◌∷◌, filter,
}
use byte_battle.Db.Rows.{Uuid}
pub mod Lookups
pub mod Turns
pub mod Cleanup
pub mod Schedule
pub mod Exclusion

-- The two kinds of slots that the code asks for.
pub data Kind : Type 0 where
  execute submit : Kind

abbrev pub same_kind : Kind → Kind → Bool
same_kind execute execute = true
same_kind submit submit = true
same_kind _ _ = false

pub record SlotKey : Type 0 where
  pub user_id : Uuid
  pub kind : Kind

abbrev pub same_slot : SlotKey → SlotKey → Bool
same_slot k l = k.user_id == l.user_id && same_kind k.kind l.kind

-- sync.Map's Load: the value of the first entry with the key.
module _ {K V : Type 0} (same : K → K → Bool) where
  unfoldable pub load : K → List (K × V) → Option V
  load k [] = none
  load k ((l, v) ∷ m) = if same k l then some v else load k m

-- The slots: a channel's address for each key, the channels' contents, and the next address.
pub record Slots : Type 0 where
  pub table : List (SlotKey × ℕ)
  pub buffered : ℕ → ℕ
  pub next_channel : ℕ

abbrev pub write : ℕ → ℕ → (ℕ → ℕ) → ℕ → ℕ
write a n f b = if b == a then n else f b

-- LoadOrStore of a new channel.
unfoldable pub load_or_store : SlotKey → Slots → ℕ × Slots
load_or_store k s = elim (load same_slot k s.table) [
  | some a ↦ (a, s)
  | none ↦ (
    s.next_channel,
    record {
      table = (k, s.next_channel) ∷ s.table;
      buffered = write s.next_channel 0 s.buffered;
      next_channel = suc s.next_channel;
    },
  )
]

-- The `select` with a default: a send that does not wait.
unfoldable pub try_send : ℕ → Slots → Bool × Slots
try_send a s =
    if ltb (s.buffered a) 1
    then (true, record s { buffered = write a (s.buffered a + 1) s.buffered })
    else (false, s)

-- The receive: none if it waits.
unfoldable pub receive : ℕ → Slots → Option Slots
receive a s =
    if ltb 0 (s.buffered a)
    then some (record s { buffered = write a (s.buffered a - 1) s.buffered })
    else none

unfoldable pub try_acquire_slot : SlotKey → Slots → Bool × Slots
try_acquire_slot k s = let (a, s1) = load_or_store k s in try_send a s1

-- none if it waits for ever.
unfoldable pub release_slot : SlotKey → Slots → Option Slots
release_slot k s = elim (load same_slot k s.table) [ some a ↦ receive a s | none ↦ some s ]

pub record ExecutionService (Limiter : Type 0) : Type 0 where
  pub limiters : List (Uuid × Limiter)
  pub slots : Slots

abbrev pub same_user : Uuid → Uuid → Bool
same_user u v = u == v

abbrev is_some : {A : Type 0} → Option A → Bool
is_some none = false
is_some (some _) = true

-- The second Range of runCleanup: whether an entry stays.
abbrev pub keeps_slot : {L : Type 0} → List (Uuid × L) → (ℕ → ℕ) → SlotKey × ℕ → Bool
keeps_slot limiters buffered (k, a) =
    is_some (load same_user k.user_id limiters) || not (buffered a == 0)

-- golang.org/x/time/rate: limiters, a new one with the service's rate and burst, Allow at a time, and
-- `Tokens() >= burst` at a time.
module _ {L : Type 0} (new_limiter : L) (allow : ℕ → L → Bool × L) (is_full : ℕ → L → Bool) where
  -- `limiter`, and what Allow makes of it, kept in the map.
  unfoldable pub allow_user : ℕ → Uuid → List (Uuid × L) → Bool × List (Uuid × L)
  allow_user now u [] = let (ok, l) = allow now new_limiter in (ok, (u, l) ∷ [])
  allow_user now u ((v, l) ∷ m) =
      let rest = allow_user now u m in
      let (ok, l') = allow now l in
      if same_user u v then (ok, (v, l') ∷ m) else (rest.0, (v, l) ∷ rest.1)

  unfoldable pub check_rate_limit : ℕ → Uuid → ExecutionService L → Bool × ExecutionService L
  check_rate_limit now u s =
      let (ok, limiters) = allow_user now u s.limiters in (ok, record s { limiters = limiters })

  unfoldable pub run_cleanup : ℕ → ExecutionService L → ExecutionService L
  run_cleanup now s =
      let limiters = filter (λ e. not (is_full now e.1)) s.limiters in
      record {
        limiters = limiters;
        slots = record s.slots {
          table = filter (keeps_slot limiters s.slots.buffered) s.slots.table;
        };
      }
