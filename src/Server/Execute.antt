-- ===== src/Server/Execute.antt =====
-- internal/server/handler.go: PostExecute, in one goroutine, with Execute of
-- internal/service/execution_service.go. The answer is without the time used.
use byte_battle.Prelude.{
  ℕ, ◌≡◌, refl, ap, ◌∙◌, ◌⊎◌, inl, inr, if◌then◌else◌, Bool, true, false, Option, none, some,
  Bool-cases,
}
use byte_battle.ApiErr.{execution_in_progress, execution_rate_limited}
use byte_battle.Db.Rows.{Uuid}
use byte_battle.Db.Exec.{Result, err, app}
use byte_battle.Execution.{
  execute, SlotKey, Slots, ExecutionService, try_acquire_slot, release_slot, check_rate_limit,
}
use byte_battle.Execution.Turns.{try_acquire_slot-release_slot}
use byte_battle.Submission.{ExecutionRequest, ExecutionResult}

abbrev pub execute_key : Uuid → SlotKey
execute_key user = record { user_id = user; kind = execute }

module _ {L : Type 0} (new_limiter : L) (allow : ℕ → L → Bool × L) (is_full : ℕ → L → Bool)
    (now : ℕ) (run : ExecutionRequest → Result ExecutionResult) where
  -- What follows the slot, until the deferred ReleaseSlot.
  unfoldable pub execute_with_slot :
      Uuid → ExecutionRequest → ExecutionService L → Result ExecutionResult × ExecutionService L
  execute_with_slot user req s =
      let (allowed, s1) = check_rate_limit new_limiter allow is_full now user s in
      if allowed then (run req, s1) else (err (app execution_rate_limited), s1)

  -- The deferred ReleaseSlot; none if it waits for ever.
  abbrev pub released :
      Uuid
      → Result ExecutionResult × ExecutionService L
      → Option (Result ExecutionResult × ExecutionService L)
  released user (r, s) = elim (release_slot (execute_key user) s.slots) [
    | none ↦ none
    | some slots ↦ some (r, record s { slots = slots })
  ]

  unfoldable pub post_execute :
      Uuid
      → ExecutionRequest
      → ExecutionService L
      → Option (Result ExecutionResult × ExecutionService L)
  post_execute user req s =
      let (acquired, slots) = try_acquire_slot (execute_key user) s.slots in
      if acquired
      then released user (execute_with_slot user req (record s { slots = slots }))
      else some (err (app execution_in_progress), record s { slots = slots })

  slots_kept :
      (user : Uuid) (req : ExecutionRequest) (s : ExecutionService L)
      → (execute_with_slot user req s).1.slots ≡ s.slots
  unfolding execute_with_slot check_rate_limit
  slots_kept user req s =
      elim (Bool-cases (check_rate_limit new_limiter allow is_full now user s).0) [
        | inl fine ↦ rw (fine) refl
        | inr over ↦ rw (over) refl
      ]

  released-some :
      (user : Uuid) (r : Result ExecutionResult) (s : ExecutionService L) (s2 : Slots)
      → release_slot (execute_key user) s.slots ≡ some s2
      → released user (r, s) ≡ some (r, record s { slots = s2 })
  released-some user r s s2 e = rw (e, released) refl

  -- With no other goroutine acting, PostExecute returns, whatever the executor does: that an execution
  -- is in progress if the user's slot is taken, and otherwise the slot is free again afterwards.
  pub post_execute-returns :
      (user : Uuid) (req : ExecutionRequest) (s : ExecutionService L)
      → (r : Result ExecutionResult) × (s' : ExecutionService L) × (post_execute user req s
          ≡ some (r, s'))
        × (((try_acquire_slot (execute_key user) s.slots).0 ≡ false)
              × (r ≡ err (app execution_in_progress))
            ⊎ ((try_acquire_slot (execute_key user) s'.slots).0 ≡ true))
  unfolding post_execute
  post_execute-returns user req s =
      let slots1 : Slots = (try_acquire_slot (execute_key user) s.slots).1 in
      let s1 : ExecutionService L = record s { slots = slots1 } in
      elim (Bool-cases (try_acquire_slot (execute_key user) s.slots).0) [
        | inr busy ↦
            (err (app execution_in_progress), s1, rw (busy, post_execute) refl, inl (busy, refl))
        | inl taken ↦
            let (s2, freed, again) =
              try_acquire_slot-release_slot (execute_key user) s.slots taken in
            let (r, after) = execute_with_slot user req s1 in
            let start : post_execute user req s ≡ released user (execute_with_slot user req s1) =
              rw (taken, post_execute) refl in
            (
              r,
              record after { slots = s2 },
              start
                  ∙ released-some user r after s2
                      (ap (release_slot (execute_key user)) (slots_kept user req s1) ∙ freed),
              inr again,
            )
      ]
