-- ===== src/Execution/Cleanup.antt =====
-- The hourly cleanup of limiters and slots.
use byte_battle.Prelude.{
  ℕ, ◌≡◌, refl, sym, ap, ◌∙◌, subst, inl, inr, Bool, true, false, not, some, List, [], ◌∷◌, arith,
  Bool-cases, filter, any,
}
use byte_battle.Db.Rows.{Uuid}
use byte_battle.Execution.{
  SlotKey, same_slot, ExecutionService, load, same_user, keeps_slot, allow_user, check_rate_limit,
  run_cleanup,
}

module _ {L : Type 0} (new_limiter : L) (allow : ℕ → L → Bool × L) (is_full : ℕ → L → Bool) where
  -- The entries of a map have different keys.
  abbrev pub has_user : Uuid → List (Uuid × L) → Bool
  has_user u = any (λ e. same_user u e.0)

  abbrev pub AreUnique : List (Uuid × L) → Type 0
  AreUnique [] = Unit
  AreUnique ((u, l) ∷ m) = (has_user u m ≡ false) × AreUnique m

  abbrev emptied : ℕ → List (Uuid × L) → List (Uuid × L)
  emptied now = filter (λ e. not (is_full now e.1))

  allow-absent :
      (now later : ℕ) (u : Uuid) (m : List (Uuid × L))
      → has_user u m ≡ false
      → (allow_user new_limiter allow is_full later u (emptied now m)).0
        ≡ (allow later new_limiter).0
  unfolding allow_user
  allow-absent now later u [] h = refl
  allow-absent now later u ((v, l) ∷ m) h =
      let other : same_user u v ≡ false = ground arith in
      let rest = allow-absent now later u m (ground arith) in
      elim (Bool-cases (is_full now l)) [
        | inl drop ↦ rw (drop) rest
        | inr stay ↦ rw (stay, other) rest
      ]

  module _ (now later : ℕ)
      (like_new : (l : L)
        → is_full now l ≡ true
        → (allow later l).0 ≡ (allow later new_limiter).0) where
    allow-emptied :
        (u : Uuid) (m : List (Uuid × L))
        → AreUnique m
        → (allow_user new_limiter allow is_full later u (emptied now m)).0
          ≡ (allow_user new_limiter allow is_full later u m).0
    unfolding allow_user
    allow-emptied u [] v = refl
    allow-emptied u ((v, l) ∷ m) (alone, unique) = elim (Bool-cases (same_user u v)) [
      | inl mine ↦
          let e : v ≡ u = ground arith in
          elim (Bool-cases (is_full now l)) [
            | inl drop ↦
                rw (drop, mine)
                  (allow-absent now later u m (subst (λ x. has_user x m ≡ false) e alone)
                    ∙ sym (like_new l drop))
            | inr stay ↦ rw (stay, mine) refl
          ]
      | inr other ↦
          let rest = allow-emptied u m unique in
          elim (Bool-cases (is_full now l)) [
            | inl drop ↦ rw (drop, other) rest
            | inr stay ↦ rw (stay, other) rest
          ]
    ]

    -- If a limiter that the cleanup takes for full then answers later as a new one does, the cleanup
    -- changes no later answer of CheckRateLimit.
    pub run_cleanup-check_rate_limit :
        (u : Uuid) (s : ExecutionService L)
        → AreUnique s.limiters
        → (check_rate_limit new_limiter allow is_full later u
            (run_cleanup new_limiter allow is_full now s)).0
          ≡ (check_rate_limit new_limiter allow is_full later u s).0
    unfolding check_rate_limit run_cleanup
    run_cleanup-check_rate_limit u s unique = allow-emptied u s.limiters unique

  keeps-load :
      (limiters : List (Uuid × L)) (buffered : ℕ → ℕ) (k : SlotKey) (a : ℕ) (m : List (SlotKey × ℕ))
      → buffered a ≡ 1
      → load same_slot k m ≡ some a
      → load same_slot k (filter (keeps_slot limiters buffered) m) ≡ some a
  unfolding load
  keeps-load limiters buffered k a [] held h = cc
  keeps-load limiters buffered k a ((l, b) ∷ m) held h = elim (Bool-cases (same_slot k l)) [
    | inl mine ↦
        let e : b ≡ a = ground arith in
        let stays : keeps_slot limiters buffered (l, b) ≡ true = rw (e, held) (ground arith) in
        rw (stays, mine) (ap some e)
    | inr other ↦
        let rest = keeps-load limiters buffered k a m held (ground arith) in
        elim (Bool-cases (keeps_slot limiters buffered (l, b))) [
          | inl stays ↦ rw (stays, other) rest
          | inr goes ↦ rw (goes) rest
        ]
  ]

  -- The cleanup keeps the slots that are held.
  pub run_cleanup-load :
      (now : ℕ) (k : SlotKey) (a : ℕ) (s : ExecutionService L)
      → s.slots.buffered a ≡ 1
      → load same_slot k s.slots.table ≡ some a
      → load same_slot k ((run_cleanup new_limiter allow is_full now s).slots.table) ≡ some a
  unfolding run_cleanup
  run_cleanup-load now k a s held h = keeps-load _ s.slots.buffered k a s.slots.table held h
