-- ===== src/Docker/Pool.antt =====
-- One language's pool: its queue, its workers and their containers, one step of a goroutine at a time.
use byte_battle.Prelude.{
  ℕ, zero, suc, ◌==◌, ltb, if◌then◌else◌, Bool, true, false, ◌&&◌, Option, none, some, List, [],
  ◌∷◌, ◌++◌, length, get_elem?, delete, ◌*◌,
}
use byte_battle.Prelude.Sums.{set}
use byte_battle.Submission.{ExecutionResult}

-- `workResult`: what Run's request gave, or the error of a shutdown.
pub data WorkResult : Type 0 where
  executed : ExecutionResult → Bool → WorkResult
  shutting_down : WorkResult

-- Where runWorker stands: before createWarmContainer; in the select after a failure of it; in the
-- select of processNextItem; in executeWorkItem; before cleanWorkDir; before cleanupContainer of a
-- container that is not alive; in drainQueueWithShutdown; before the last cleanupContainer; returned.
pub data Worker : Type 0 where
  acquiring : Worker
  retrying : Worker
  idle : ℕ → Worker
  busy : ℕ → ℕ → Worker
  cleaning : ℕ → Worker
  removing : ℕ → Worker
  draining : ℕ → Worker
  closing : ℕ → Worker
  stopped : Worker

-- Work items and containers are numbers. `results` is what has been written to an item's channel,
-- `checked` the number of calls of Run between the test for a shutdown and the send, and `live` the
-- containers of the daemon.
pub record Pool : Type 0 where
  pub queue : List ℕ
  pub capacity : ℕ
  pub shut : Bool
  pub checked : ℕ
  pub next_item : ℕ
  pub results : ℕ → List WorkResult
  pub workers : List Worker
  pub live : List ℕ
  pub next_container : ℕ

-- What the environment chooses for a step: which calls of Docker succeed, whether a select takes the
-- shutdown when it can, and what an execution gives.
pub record Choice : Type 0 where
  pub created : Bool
  pub started : Bool
  pub removed : Bool
  pub alive : Bool
  pub takes_shutdown : Bool
  pub outcome : WorkResult

abbrev pub is_item : ℕ → ℕ → Bool
is_item i j = j == i

abbrev pub become : ℕ → Worker → Pool → Pool
become t w p = record p { workers = set t w p.workers }

-- The worker's write to the item's channel.
abbrev pub write_result : ℕ → WorkResult → (ℕ → List WorkResult) → ℕ → List WorkResult
write_result i r results j = if j == i then results j ++ (r ∷ []) else results j

-- cleanupContainer: an error of ContainerRemove is dropped.
unfoldable pub cleanup_container : Bool → ℕ → List ℕ → List ℕ
cleanup_container removed c live = if removed then delete (is_item c) live else live

-- createWarmContainer and what acquireContainer makes of it. A container that does not start is
-- removed; a failed warm-up is only logged.
unfoldable pub acquire_container : ℕ → Choice → Pool → Pool
acquire_container t ch p =
    let c = p.next_container in
    if ch.created
    then (if ch.started
        then record p {
          workers = set t (idle c) p.workers;
          live = c ∷ p.live;
          next_container = suc c;
        }
        else record p {
          workers = set t retrying p.workers;
          live = cleanup_container ch.removed c (c ∷ p.live);
          next_container = suc c;
        })
    else become t retrying p

-- The select of processNextItem, with the queue as it is.
unfoldable pub process_next_item : ℕ → ℕ → Choice → List ℕ → Pool → Pool
process_next_item t c ch [] p = if p.shut then become t (draining c) p else p
process_next_item t c ch (i ∷ q) p =
    if p.shut && ch.takes_shutdown
    then become t (draining c) p
    else record p { queue = q; workers = set t (busy c i) p.workers }

-- One turn of drainQueueWithShutdown.
unfoldable pub drain_queue : ℕ → ℕ → List ℕ → Pool → Pool
drain_queue t c [] p = become t (closing c) p
drain_queue t c (i ∷ q) p = record p { queue = q; results = write_result i shutting_down p.results }

-- The next step of a worker.
unfoldable pub run_worker : ℕ → Choice → Worker → Pool → Pool
run_worker t ch acquiring p = acquire_container t ch p
run_worker t ch retrying p = become t (if p.shut && ch.takes_shutdown then stopped else acquiring) p
run_worker t ch (idle c) p = process_next_item t c ch p.queue p
run_worker t ch (busy c i) p = record p {
  results = write_result i ch.outcome p.results;
  workers = set t (cleaning c) p.workers;
}
run_worker t ch (cleaning c) p = become t (if ch.alive then idle c else removing c) p
run_worker t ch (removing c) p = record p {
  live = cleanup_container ch.removed c p.live;
  workers = set t acquiring p.workers;
}
run_worker t ch (draining c) p = drain_queue t c p.queue p
run_worker t ch (closing c) p = record p {
  live = cleanup_container ch.removed c p.live;
  workers = set t stopped p.workers;
}
run_worker t ch stopped p = p

-- The last select of Run's entrance: the number of the item, or none if the queue is full.
unfoldable pub offer : Pool → Option ℕ × Pool
offer p =
    if ltb (length p.queue) p.capacity
    then (
      some p.next_item,
      record p { queue = p.queue ++ (p.next_item ∷ []); next_item = suc p.next_item },
    )
    else (none, p)

-- A call of Run tests for a shutdown, and sends its item; a signal shuts the executor down; a worker
-- takes its next step.
pub data Step : Type 0 where
  check : Step
  send : Step
  shutdown : Step
  work : ℕ → Choice → Step

abbrev pub sent : ℕ → Pool → Pool
sent zero p = p
sent (suc n) p = record (offer p).1 { checked = n }

unfoldable pub step : Step → Pool → Pool
step check p = if p.shut then p else record p { checked = suc p.checked }
step send p = sent p.checked p
step shutdown p = record p { shut = true }
step (work t ch) p = elim (get_elem? p.workers t) [ none ↦ p | some w ↦ run_worker t ch w p ]

unfoldable pub run : List Step → Pool → Pool
run [] p = p
run (s ∷ ss) p = run ss (step s p)

abbrev pub workers_of : ℕ → List Worker
workers_of zero = []
workers_of (suc n) = acquiring ∷ workers_of n

abbrev pub default_pool_size : ℕ
default_pool_size = 3

abbrev pub queue_multiplier : ℕ
queue_multiplier = 6

-- initPools, for one language with the pool size of its settings, 0 for one that is not positive.
unfoldable pub init_pool : ℕ → Pool
init_pool pool_size =
    let size = if pool_size == 0 then default_pool_size else pool_size in
    record {
      queue = [];
      capacity = size * queue_multiplier;
      shut = false;
      checked = 0;
      next_item = 0;
      results = λ i. [];
      workers = workers_of size;
      live = [];
      next_container = 0;
    }
