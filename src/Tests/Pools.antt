-- ===== src/Tests/Pools.antt =====
-- The pools of containers on concrete steps.
use byte_battle.Prelude.{
  ◌<◌, ◌≤◌, ◌+◌, ◌≡◌, ◌↔◌, ◌⊎◌, refl, true, false, none, some, List, [], ◌∷◌, length,
}
use byte_battle.Prelude.Select.{All}
use byte_battle.Prelude.Sums.{count, total}
use byte_battle.Submission.{ExecutionResult}
use byte_battle.Docker.Pool.{
  WorkResult, executed, shutting_down, Choice, Pool, idle, Step, check, send, shutdown, work, run,
  init_pool,
}
use byte_battle.Docker.Accounting.{job, run-balances}
use byte_battle.Docker.Containers.{holds, Removes, run-isolates, run-reclaims}
use byte_battle.Docker.Service.{turns, write_all, turns-serve}
use byte_battle.Docker.Readiness.{Readiness, swap, add, is_ready, init_readiness, run-is_ready}
use byte_battle.Docker.Readiness as Readiness
use byte_battle.Docker.Exec.{
  Daemon, safety_fired, result_of, execute_work_item, execute_work_item-bounds,
}

abbrev blank : ExecutionResult
blank = record { stdout = []; stderr = []; exit_code = 0 }

abbrev done : WorkResult
done = executed blank false

-- All calls of Docker succeed, and a select takes the shutdown.
abbrev lucky : Choice
lucky = record {
  created = true;
  started = true;
  removed = true;
  alive = true;
  takes_shutdown = true;
  outcome = done;
}

-- Two workers get containers; three items come; one is executed, then the executor is shut down, and
-- the items that are left are answered while one worker drains the queue and the other ends.
abbrev morning : List Step
morning =
    work 0 lucky
    ∷ work 1 lucky
    ∷ check
    ∷ check
    ∷ check
    ∷ send
    ∷ send
    ∷ work 1 lucky
    ∷ send
    ∷ work 1 lucky
    ∷ work 1 lucky
    ∷ []

abbrev evening : List Step
evening =
    shutdown
    ∷ work 0 lucky
    ∷ work 0 lucky
    ∷ work 1 lucky
    ∷ work 0 lucky
    ∷ work 0 lucky
    ∷ work 0 lucky
    ∷ []

abbrev closed_pool : Pool
closed_pool =
    run (shutdown ∷ work 0 lucky ∷ work 0 lucky ∷ work 0 lucky ∷ work 0 lucky ∷ [])
      (run (work 0 lucky ∷ check ∷ []) (init_pool 1))

-- An item that is sent after the last worker has drained the queue waits there.
test-stranded : (run (send ∷ work 0 lucky ∷ []) closed_pool).queue ≡ 0 ∷ []
unfolding run byte_battle.Docker.Pool.step byte_battle.Docker.Pool.init_pool
    byte_battle.Docker.Pool.run_worker byte_battle.Docker.Pool.offer
    byte_battle.Docker.Pool.acquire_container byte_battle.Docker.Pool.process_next_item
    byte_battle.Docker.Pool.drain_queue byte_battle.Docker.Pool.cleanup_container
test-stranded = refl

test-morning : (run morning (init_pool 2)).queue ≡ 1 ∷ 2 ∷ []
unfolding run byte_battle.Docker.Pool.step byte_battle.Docker.Pool.init_pool
    byte_battle.Docker.Pool.run_worker byte_battle.Docker.Pool.offer
    byte_battle.Docker.Pool.acquire_container byte_battle.Docker.Pool.process_next_item
    byte_battle.Docker.Pool.drain_queue byte_battle.Docker.Pool.cleanup_container
test-morning = refl

run-balances_example :
    (count 1 (run morning (init_pool 2)).queue
        + total (job 1) (run morning (init_pool 2)).workers
        + length ((run morning (init_pool 2)).results 1)
      ≡ 1)
    × (length (run morning (init_pool 2)).queue ≤ 12)
unfolding run byte_battle.Docker.Pool.step byte_battle.Docker.Pool.init_pool
    byte_battle.Docker.Pool.run_worker byte_battle.Docker.Pool.offer
    byte_battle.Docker.Pool.acquire_container byte_battle.Docker.Pool.process_next_item
    byte_battle.Docker.Pool.drain_queue byte_battle.Docker.Pool.cleanup_container
run-balances_example = run-balances 2 1 morning

run-isolates_example :
    (total (holds 1) (run morning (init_pool 2)).workers ≤ count 1 (run morning (init_pool 2)).live)
    × (count 1 (run morning (init_pool 2)).live ≤ 1)
run-isolates_example = run-isolates 2 1 morning

evening-Removes : Removes evening
evening-Removes = (refl, (refl, (refl, (refl, (refl, (refl, tt))))))

run-reclaims_example :
    total (holds 0) (run evening (init_pool 1)).workers ≡ count 0 (run evening (init_pool 1)).live
run-reclaims_example = run-reclaims 1 0 evening evening-Removes

abbrev queued : Pool
queued = record {
  queue = 4 ∷ 5 ∷ [];
  capacity = 6;
  shut = false;
  checked = 0;
  next_item = 6;
  results = λ i. [];
  workers = idle 8 ∷ [];
  live = 8 ∷ [];
  next_container = 9;
}

turns-serve_example :
    ((run (turns 0 (done ∷ shutting_down ∷ [])) queued).queue ≡ [])
    × ((run (turns 0 (done ∷ shutting_down ∷ [])) queued).results
        ≡ write_all (4 ∷ 5 ∷ []) (done ∷ shutting_down ∷ []) (λ i. []))
turns-serve_example = turns-serve 0 8 (done ∷ shutting_down ∷ []) queued refl refl refl

-- Two languages, each with a container; the goroutine that has counted the last one has not stored yet.
abbrev notices : List Readiness.Step
notices = swap 0 ∷ swap 1 ∷ swap 1 ∷ add ∷ add ∷ []

run-is_ready_example : (is_ready (Readiness.run notices (init_readiness 2)) ≡ true) ↔ (
    (0 < 2)
    × All (λ b. b ≡ true) (Readiness.run notices (init_readiness 2)).primed
    × ((Readiness.run notices (init_readiness 2)).swapped ≡ 0)
    × ((Readiness.run notices (init_readiness 2)).storing ≡ 0))
run-is_ready_example = run-is_ready 2 notices

abbrev slow : Daemon
slow = record {
  copied = true;
  exec_created = true;
  attached = true;
  ending = safety_fired;
  stdout = 65 ∷ [];
  stderr = [];
  exit_code = none;
}

abbrev slow_result : ExecutionResult
slow_result = result_of slow

execute_work_item-bounds_example :
    (length slow_result.stdout ≤ 10254)
    × (length slow_result.stderr ≤ 10275)
    × ((slow_result.exit_code ≡ 124) ↔ ((slow.ending ≡ safety_fired) ⊎ (slow.exit_code ≡ some 124)))
unfolding execute_work_item byte_battle.Docker.Exec.exec_in_container
execute_work_item-bounds_example = execute_work_item-bounds slow slow_result refl
