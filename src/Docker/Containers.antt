-- ===== src/Docker/Containers.antt =====
-- Which worker uses which container.
use byte_battle.Prelude.{
  ℕ, zero, suc, ◌+◌, ◌≤◌, ◌≡◌, refl, ◌==◌, ltb, true, ◌&&◌, not, some, inl, inr, List, [], ◌∷◌,
  get_elem?, arith, Option-cases,
}
use byte_battle.Prelude.Sums.{one_if, count, count-delete, set, total, total-set}
use byte_battle.Docker.Pool.{
  Worker, acquiring, retrying, idle, busy, cleaning, removing, draining, closing, stopped, Pool,
  Choice, become, run_worker, acquire_container, cleanup_container, process_next_item, drain_queue,
  offer, sent, Step, check, send, shutdown, work, step, run, init_pool, workers_of,
}

-- The worker has the container.
abbrev pub holds : ℕ → Worker → ℕ
holds k acquiring = 0
holds k retrying = 0
holds k (idle c) = one_if (c == k)
holds k (busy c i) = one_if (c == k)
holds k (cleaning c) = one_if (c == k)
holds k (removing c) = one_if (c == k)
holds k (draining c) = one_if (c == k)
holds k (closing c) = one_if (c == k)
holds k stopped = 0

-- A container is live at most once, none of a later number is, and those that no worker has number d.
abbrev IsHeld : ℕ → ℕ → Pool → Type 0
IsHeld k d p =
    (total (holds k) p.workers + d ≡ count k p.live)
    × (count k p.live ≤ one_if (ltb k p.next_container))

-- What a step leaves behind: a container whose removal failed.
abbrev left_behind : ℕ → Choice → Pool → Worker → ℕ
left_behind k ch p acquiring =
    one_if (ch.created && not ch.started && not ch.removed && (p.next_container == k))
left_behind k ch p (removing c) = one_if (not ch.removed && (c == k))
left_behind k ch p (closing c) = one_if (not ch.removed && (c == k))
left_behind k ch p _ = 0

module _ (k d t : ℕ) (ch : Choice) where
  become-IsHeld :
      (w w' : Worker) (p : Pool)
      → holds k w ≡ holds k w'
      → get_elem? p.workers t ≡ some w
      → IsHeld k d p
      → IsHeld k (d + 0) (become t w' p)
  become-IsHeld w w' p e at b = (omega (arith, total-set (holds k) t w' w p.workers at, b.0), b.1)

  acquire_container-IsHeld :
      (p : Pool)
      → get_elem? p.workers t ≡ some acquiring
      → IsHeld k d p
      → IsHeld k (d + left_behind k ch p acquiring) (acquire_container t ch p)
  unfolding acquire_container cleanup_container
  acquire_container-IsHeld p at b = ground (
    arith,
    total-set (holds k) t retrying acquiring p.workers at,
    total-set (holds k) t (idle p.next_container) acquiring p.workers at,
    count-delete k p.next_container (p.next_container ∷ p.live),
  )

  -- cleanupContainer of a container that the worker has, and that nobody else can have.
  release-IsHeld :
      (w w' : Worker) (c : ℕ) (p : Pool)
      → holds k w ≡ one_if (c == k)
      → holds k w' ≡ 0
      → get_elem? p.workers t ≡ some w
      → IsHeld k d p
      → IsHeld k
          (d + one_if (not ch.removed && (c == k)))
          (record p { live = cleanup_container ch.removed c p.live; workers = set t w' p.workers })
  unfolding cleanup_container
  release-IsHeld w w' c p e e' at b =
      ground (arith, total-set (holds k) t w' w p.workers at, count-delete k c p.live)

  process_next_item-IsHeld :
      (c : ℕ) (q : List ℕ) (p : Pool)
      → get_elem? p.workers t ≡ some (idle c)
      → IsHeld k d p
      → IsHeld k (d + 0) (process_next_item t c ch q p)
  unfolding process_next_item
  process_next_item-IsHeld c [] p at b =
      ground (arith, become-IsHeld (idle c) (draining c) p refl at b)
  process_next_item-IsHeld c (i ∷ q) p at b = ground (
    arith,
    become-IsHeld (idle c) (draining c) p refl at b,
    become-IsHeld (idle c) (busy c i) p refl at b,
  )

  drain_queue-IsHeld :
      (c : ℕ) (q : List ℕ) (p : Pool)
      → get_elem? p.workers t ≡ some (draining c)
      → IsHeld k d p
      → IsHeld k (d + 0) (drain_queue t c q p)
  unfolding drain_queue
  drain_queue-IsHeld c [] p at b = become-IsHeld (draining c) (closing c) p refl at b
  drain_queue-IsHeld c (i ∷ q) p at b = (omega (arith, b.0), b.1)

  run_worker-IsHeld :
      (w : Worker) (p : Pool)
      → get_elem? p.workers t ≡ some w
      → IsHeld k d p
      → IsHeld k (d + left_behind k ch p w) (run_worker t ch w p)
  unfolding run_worker
  run_worker-IsHeld acquiring p at b = acquire_container-IsHeld p at b
  run_worker-IsHeld retrying p at b = ground (
    arith,
    become-IsHeld retrying stopped p refl at b,
    become-IsHeld retrying acquiring p refl at b,
  )
  run_worker-IsHeld (idle c) p at b = process_next_item-IsHeld c p.queue p at b
  run_worker-IsHeld (busy c i) p at b = become-IsHeld (busy c i) (cleaning c) p refl at b
  run_worker-IsHeld (cleaning c) p at b = ground (
    arith,
    become-IsHeld (cleaning c) (idle c) p refl at b,
    become-IsHeld (cleaning c) (removing c) p refl at b,
  )
  run_worker-IsHeld (removing c) p at b = release-IsHeld (removing c) acquiring c p refl refl at b
  run_worker-IsHeld (draining c) p at b = drain_queue-IsHeld c p.queue p at b
  run_worker-IsHeld (closing c) p at b = release-IsHeld (closing c) stopped c p refl refl at b
  run_worker-IsHeld stopped p at b = (omega (arith, b.0), b.1)

-- Every removal of a container succeeds.
abbrev pub Removes : List Step → Type 0
Removes [] = Unit
Removes (work t ch ∷ ss) = (ch.removed ≡ true) × Removes ss
Removes (check ∷ ss) = Removes ss
Removes (send ∷ ss) = Removes ss
Removes (shutdown ∷ ss) = Removes ss

left_behind-removed :
    (k : ℕ) (ch : Choice) (p : Pool) (w : Worker) → ch.removed ≡ true → left_behind k ch p w ≡ 0
left_behind-removed k ch p acquiring e = ground arith
left_behind-removed k ch p retrying e = refl
left_behind-removed k ch p (idle c) e = refl
left_behind-removed k ch p (busy c i) e = refl
left_behind-removed k ch p (cleaning c) e = refl
left_behind-removed k ch p (removing c) e = ground arith
left_behind-removed k ch p (draining c) e = refl
left_behind-removed k ch p (closing c) e = ground arith
left_behind-removed k ch p stopped e = refl

sent-IsHeld : (k d n : ℕ) (p : Pool) → IsHeld k d p → IsHeld k d (sent n p)
unfolding offer
sent-IsHeld k d zero p b = b
sent-IsHeld k d (suc n) p b = ground arith

-- Containers without a worker, after the steps.
abbrev HeldAfter : ℕ → ℕ → List Step → Pool → Type 0
HeldAfter k d ss p = (e : ℕ) × IsHeld k e (run ss p) × (Removes ss → e ≡ d)

run-IsHeld : (k d : ℕ) (ss : List Step) (p : Pool) → IsHeld k d p → HeldAfter k d ss p
unfolding run step
run-IsHeld k d [] p b = (d, b, λ _. refl)
run-IsHeld k d (check ∷ ss) p b = run-IsHeld k d ss (step check p) (ground arith)
run-IsHeld k d (send ∷ ss) p b = run-IsHeld k d ss (step send p) (sent-IsHeld k d p.checked p b)
run-IsHeld k d (shutdown ∷ ss) p b = run-IsHeld k d ss (step shutdown p) b
run-IsHeld k d (work t ch ∷ ss) p b = elim (Option-cases (get_elem? p.workers t)) [
  | inl missing ↦
      let (e, held, same) = run-IsHeld k d ss p b in
      rw (missing, run, step) (e, held, λ r. same r.1)
  | inr (w, at) ↦
      let left = left_behind k ch p w in
      let (e, held, same) =
        run-IsHeld k (d + left) ss (run_worker t ch w p) (run_worker-IsHeld k d t ch w p at b) in
      rw (at, run, step) (e, held, λ r. omega (arith, same r.1, left_behind-removed k ch p w r.0))
]

total-workers_of : (k n : ℕ) → total (holds k) (workers_of n) ≡ 0
total-workers_of k zero = refl
total-workers_of k (suc n) = omega (arith, total-workers_of k n)

init_pool-IsHeld : (k size : ℕ) → IsHeld k 0 (init_pool size)
unfolding init_pool
init_pool-IsHeld k size = ground (arith, total-workers_of k size, total-workers_of k 3)

-- However callers, workers, a shutdown and the daemon interleave from initPools on, no two workers
-- have one container, and a worker's container is live.
pub run-isolates :
    (size k : ℕ) (ss : List Step)
    → (total (holds k) (run ss (init_pool size)).workers ≤ count k (run ss (init_pool size)).live)
      × (count k (run ss (init_pool size)).live ≤ 1)
run-isolates size k ss =
    let (e, (held, low), same) = run-IsHeld k 0 ss (init_pool size) (init_pool-IsHeld k size) in
    (omega arith, ground arith)

-- If no removal of a container fails, then however the steps interleave, a container is live exactly
-- when some worker has it, so that none is left when all workers have returned.
pub run-reclaims :
    (size k : ℕ) (ss : List Step)
    → Removes ss
    → total (holds k) (run ss (init_pool size)).workers ≡ count k (run ss (init_pool size)).live
run-reclaims size k ss removes =
    let (e, (held, low), same) = run-IsHeld k 0 ss (init_pool size) (init_pool-IsHeld k size) in
    omega (arith, same removes)
