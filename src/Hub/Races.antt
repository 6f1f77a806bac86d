-- ===== src/Hub/Races.antt =====
-- Join looks the room up in one critical section and enters it in another; Leave may run between.
use byte_battle.Prelude.{ℕ, ◌≡◌, ◌==◌, false, some, [], delete, arith}
use byte_battle.Hub.{Hub, locate, enter, leave, broadcast, is_in}

module _ (game c d msg r : ℕ) (h : Hub) where
  abbrev located : Hub
  located = (locate game h).1

  abbrev left : Hub
  left = leave game d located

  abbrev entered : Hub
  entered = enter (locate game h).0 c left

  -- If the one client of a room leaves between the two halves of another client's Join, the
  -- joining client ends outside the map: it is in no room of the game, and a broadcast to the game
  -- changes nothing.
  pub join-lost :
      h.rooms game ≡ some r
      → delete (λ x. x == d) (h.members r) ≡ []
      → (is_in game c entered ≡ false) × (broadcast game msg entered ≡ entered)
  unfolding locate enter leave broadcast
  join-lost found alone = (ground arith, ground arith)
