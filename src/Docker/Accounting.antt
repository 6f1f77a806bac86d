-- ===== src/Docker/Accounting.antt =====
-- Where the work items are.
use byte_battle.Prelude.{
  ℕ, zero, suc, ◌+◌, ◌*◌, ◌≤◌, ◌≡◌, refl, ◌==◌, ltb, if◌then◌else◌, some, inl, inr, List, [], ◌∷◌,
  length, length-append, get_elem?, arith, Option-cases,
}
use byte_battle.Prelude.Sums.{one_if, count, count-append, total, total-set}
use byte_battle.Docker.Pool.{
  Worker, acquiring, retrying, idle, busy, cleaning, removing, draining, closing, stopped, Pool,
  Choice, WorkResult, shutting_down, write_result, become, run_worker, acquire_container,
  process_next_item, drain_queue, offer, Step, check, send, shutdown, work, step, run, init_pool,
  workers_of, sent,
}

-- The worker executes the item.
abbrev pub job : ℕ → Worker → ℕ
job i acquiring = 0
job i retrying = 0
job i (idle c) = 0
job i (busy c j) = one_if (j == i)
job i (cleaning c) = 0
job i (removing c) = 0
job i (draining c) = 0
job i (closing c) = 0
job i stopped = 0

-- An item that was sent is in exactly one place, and any other in none.
abbrev pub IsBalanced : ℕ → Pool → Type 0
IsBalanced i p =
    count i p.queue + total (job i) p.workers + length (p.results i) ≡ one_if (ltb i p.next_item)

length-write :
    (i j : ℕ) (r : WorkResult) (rs : ℕ → List WorkResult)
    → length (write_result j r rs i) ≡ one_if (j == i) + length (rs i)
length-write i j r rs = ground (arith, length-append (rs i) (r ∷ []))

module _ (i t : ℕ) (ch : Choice) where
  process_next_item-IsBalanced :
      (c : ℕ) (q : List ℕ) (p : Pool)
      → q ≡ p.queue
      → get_elem? p.workers t ≡ some (idle c)
      → IsBalanced i p
      → IsBalanced i (process_next_item t c ch q p)
  unfolding process_next_item
  process_next_item-IsBalanced c [] p e at b =
      ground (arith, total-set (job i) t (draining c) (idle c) p.workers at)
  process_next_item-IsBalanced c (j ∷ q) p e at b = ground (
    arith,
    total-set (job i) t (draining c) (idle c) p.workers at,
    total-set (job i) t (busy c j) (idle c) p.workers at,
  )

  drain_queue-IsBalanced :
      (c : ℕ) (q : List ℕ) (p : Pool)
      → q ≡ p.queue
      → get_elem? p.workers t ≡ some (draining c)
      → IsBalanced i p
      → IsBalanced i (drain_queue t c q p)
  unfolding drain_queue
  drain_queue-IsBalanced c [] p e at b =
      ground (arith, total-set (job i) t (closing c) (draining c) p.workers at)
  drain_queue-IsBalanced c (j ∷ q) p e at b =
      ground (arith, length-write i j shutting_down p.results)

  -- A worker that moves to a place without an item, from one without.
  become-IsBalanced :
      (w w' : Worker) (p : Pool)
      → job i w ≡ job i w'
      → get_elem? p.workers t ≡ some w
      → IsBalanced i p
      → IsBalanced i (become t w' p)
  become-IsBalanced w w' p e at b = omega (arith, total-set (job i) t w' w p.workers at)

  acquire_container-IsBalanced :
      (p : Pool)
      → get_elem? p.workers t ≡ some acquiring
      → IsBalanced i p
      → IsBalanced i (acquire_container t ch p)
  unfolding acquire_container
  acquire_container-IsBalanced p at b = ground (
    arith,
    total-set (job i) t retrying acquiring p.workers at,
    total-set (job i) t (idle p.next_container) acquiring p.workers at,
  )

  run_worker-IsBalanced :
      (w : Worker) (p : Pool)
      → get_elem? p.workers t ≡ some w
      → IsBalanced i p
      → IsBalanced i (run_worker t ch w p)
  unfolding run_worker
  run_worker-IsBalanced acquiring p at b = acquire_container-IsBalanced p at b
  run_worker-IsBalanced retrying p at b = ground (
    arith,
    become-IsBalanced retrying stopped p refl at b,
    become-IsBalanced retrying acquiring p refl at b,
  )
  run_worker-IsBalanced (idle c) p at b = process_next_item-IsBalanced c p.queue p refl at b
  run_worker-IsBalanced (busy c j) p at b = omega (
    arith,
    length-write i j ch.outcome p.results,
    total-set (job i) t (cleaning c) (busy c j) p.workers at,
  )
  run_worker-IsBalanced (cleaning c) p at b = ground (
    arith,
    become-IsBalanced (cleaning c) (idle c) p refl at b,
    become-IsBalanced (cleaning c) (removing c) p refl at b,
  )
  run_worker-IsBalanced (removing c) p at b =
      omega (arith, total-set (job i) t acquiring (removing c) p.workers at)
  run_worker-IsBalanced (draining c) p at b = drain_queue-IsBalanced c p.queue p refl at b
  run_worker-IsBalanced (closing c) p at b =
      omega (arith, total-set (job i) t stopped (closing c) p.workers at)
  run_worker-IsBalanced stopped p at b = b

offer-IsBalanced : (i : ℕ) (p : Pool) → IsBalanced i p → IsBalanced i (offer p).1
unfolding offer
offer-IsBalanced i p b = ground (arith, count-append i p.queue (p.next_item ∷ []))

sent-IsBalanced : (i n : ℕ) (p : Pool) → IsBalanced i p → IsBalanced i (sent n p)
sent-IsBalanced i zero p b = b
sent-IsBalanced i (suc n) p b = offer-IsBalanced i p b

step-IsBalanced : (i : ℕ) (s : Step) (p : Pool) → IsBalanced i p → IsBalanced i (step s p)
unfolding step
step-IsBalanced i check p b = ground arith
step-IsBalanced i send p b = sent-IsBalanced i p.checked p b
step-IsBalanced i shutdown p b = b
step-IsBalanced i (work t ch) p b = elim (Option-cases (get_elem? p.workers t)) [
  | inl missing ↦ rw (missing, step) b
  | inr (w, at) ↦ rw (at, step) (run_worker-IsBalanced i t ch w p at b)
]

run-IsBalanced : (i : ℕ) (ss : List Step) (p : Pool) → IsBalanced i p → IsBalanced i (run ss p)
unfolding run
run-IsBalanced i [] p b = b
run-IsBalanced i (s ∷ ss) p b = run-IsBalanced i ss (step s p) (step-IsBalanced i s p b)

total-workers_of : (f : Worker → ℕ) (n : ℕ) → f acquiring ≡ 0 → total f (workers_of n) ≡ 0
total-workers_of f zero e = refl
total-workers_of f (suc n) e = omega (arith, total-workers_of f n e)

init_pool-IsBalanced : (i size : ℕ) → IsBalanced i (init_pool size)
unfolding init_pool
init_pool-IsBalanced i size =
    ground (arith, total-workers_of (job i) size refl, total-workers_of (job i) 3 refl)

-- The queue is within its capacity.
abbrev IsWithin : ℕ → Pool → Type 0
IsWithin n p = (length p.queue ≤ n) × (p.capacity ≡ n)

process_next_item-IsWithin :
    (n t c : ℕ) (ch : Choice) (q : List ℕ) (p : Pool)
    → length q ≤ n
    → IsWithin n p
    → IsWithin n (process_next_item t c ch q p)
unfolding process_next_item
process_next_item-IsWithin n t c ch [] p h b = ground arith
process_next_item-IsWithin n t c ch (i ∷ q) p h b = ground arith

drain_queue-IsWithin :
    (n t c : ℕ) (q : List ℕ) (p : Pool)
    → length q ≤ n
    → IsWithin n p
    → IsWithin n (drain_queue t c q p)
unfolding drain_queue
drain_queue-IsWithin n t c [] p h b = b
drain_queue-IsWithin n t c (i ∷ q) p h b = ground arith

run_worker-IsWithin :
    (n t : ℕ) (ch : Choice) (w : Worker) (p : Pool)
    → IsWithin n p
    → IsWithin n (run_worker t ch w p)
unfolding run_worker acquire_container
run_worker-IsWithin n t ch acquiring p b = ground arith
run_worker-IsWithin n t ch retrying p b = b
run_worker-IsWithin n t ch (idle c) p b = process_next_item-IsWithin n t c ch p.queue p b.0 b
run_worker-IsWithin n t ch (busy c i) p b = b
run_worker-IsWithin n t ch (cleaning c) p b = b
run_worker-IsWithin n t ch (removing c) p b = b
run_worker-IsWithin n t ch (draining c) p b = drain_queue-IsWithin n t c p.queue p b.0 b
run_worker-IsWithin n t ch (closing c) p b = b
run_worker-IsWithin n t ch stopped p b = b

sent-IsWithin : (n k : ℕ) (p : Pool) → IsWithin n p → IsWithin n (sent k p)
unfolding offer
sent-IsWithin n zero p b = b
sent-IsWithin n (suc k) p b = ground (arith, length-append p.queue (p.next_item ∷ []))

step-IsWithin : (n : ℕ) (s : Step) (p : Pool) → IsWithin n p → IsWithin n (step s p)
unfolding step
step-IsWithin n check p b = ground arith
step-IsWithin n send p b = sent-IsWithin n p.checked p b
step-IsWithin n shutdown p b = b
step-IsWithin n (work t ch) p b = elim (Option-cases (get_elem? p.workers t)) [
  | inl missing ↦ rw (missing, step) b
  | inr (w, at) ↦ rw (at, step) (run_worker-IsWithin n t ch w p b)
]

run-IsWithin : (n : ℕ) (ss : List Step) (p : Pool) → IsWithin n p → IsWithin n (run ss p)
unfolding run
run-IsWithin n [] p b = b
run-IsWithin n (s ∷ ss) p b = run-IsWithin n ss (step s p) (step-IsWithin n s p b)

abbrev pub capacity_of : ℕ → ℕ
capacity_of size = (if size == 0 then 3 else size) * 6

init_pool-IsWithin : (size : ℕ) → IsWithin (capacity_of size) (init_pool size)
unfolding init_pool
init_pool-IsWithin size = ground arith

-- However callers, workers, a shutdown and the daemon interleave from initPools on, each item that
-- was sent is in the queue once, or executed by one worker, or has one result written to its
-- channel, and exactly one of these; other items are nowhere; and the queue is never longer than six
-- times the pool's size. So no item gets two results and no worker waits to write one.
pub run-balances :
    (size i : ℕ) (ss : List Step)
    → (count i (run ss (init_pool size)).queue
          + total (job i) (run ss (init_pool size)).workers
          + length ((run ss (init_pool size)).results i)
        ≡ one_if (ltb i (run ss (init_pool size)).next_item))
      × (length (run ss (init_pool size)).queue ≤ capacity_of size)
run-balances size i ss = (
  run-IsBalanced i ss (init_pool size) (init_pool-IsBalanced i size),
  (run-IsWithin (capacity_of size) ss (init_pool size) (init_pool-IsWithin size)).0,
)
