-- ===== src/Docker/Service.antt =====
-- A worker serves the queue in its order.
use byte_battle.Prelude.{
  ℕ, ◌≡◌, refl, sym, subst, true, false, some, List, [], ◌∷◌, length, get_elem?, arith,
}
use byte_battle.Prelude.Sums.{set, get_elem?-set}
use byte_battle.Docker.Pool.{
  idle, busy, cleaning, Pool, Choice, WorkResult, write_result, run_worker, process_next_item, Step,
  work, step, run,
}

-- The choices of a worker whose calls all succeed and whose execution gives r.
abbrev well : WorkResult → Choice
well r = record {
  created = true;
  started = true;
  removed = true;
  alive = true;
  takes_shutdown = false;
  outcome = r;
}

-- One turn of the worker's loop for each result: it takes an item, executes it and cleans up.
abbrev pub turns : ℕ → List WorkResult → List Step
turns t [] = []
turns t (r ∷ rs) = work t (well r) ∷ work t (well r) ∷ work t (well r) ∷ turns t rs

-- Each item's channel gets the result of its turn.
abbrev pub write_all : List ℕ → List WorkResult → (ℕ → List WorkResult) → ℕ → List WorkResult
write_all (i ∷ is) (r ∷ rs) results = write_all is rs (write_result i r results)
write_all _ _ results = results

-- The pool after the worker has served its first item.
abbrev served : ℕ → ℕ → ℕ → List ℕ → WorkResult → Pool → Pool
served t c i q r p = record p {
  queue = q;
  results = write_result i r p.results;
  workers = set t (idle c) (set t (cleaning c) (set t (busy c i) p.workers));
}

turn-served :
    (t c i : ℕ) (q : List ℕ) (r : WorkResult) (p : Pool)
    → p.queue ≡ i ∷ q
    → p.shut ≡ false
    → get_elem? p.workers t ≡ some (idle c)
    → run (work t (well r) ∷ work t (well r) ∷ work t (well r) ∷ []) p ≡ served t c i q r p
unfolding run step run_worker process_next_item
turn-served t c i q r p e up at =
    let b = get_elem?-set t (busy c i) (idle c) p.workers at in
    let d = get_elem?-set t (cleaning c) (busy c i) (set t (busy c i) p.workers) b in ground arith

-- A worker that is at its select, and whose executor is not shut down, serves what is queued in its
-- order: after as many turns as there are items the queue is empty, and the channel of each item has
-- got the result of its turn.
pub turns-serve :
    (t c : ℕ) (rs : List WorkResult) (p : Pool)
    → length rs ≡ length p.queue
    → p.shut ≡ false
    → get_elem? p.workers t ≡ some (idle c)
    → ((run (turns t rs) p).queue ≡ [])
      × ((run (turns t rs) p).results ≡ write_all p.queue rs p.results)
unfolding run
turns-serve t c rs p l up at = by_queue rs p.queue p refl l up at
  where
    by_queue :
        (rs : List WorkResult) (is : List ℕ) (p : Pool)
        → p.queue ≡ is
        → length rs ≡ length is
        → p.shut ≡ false
        → get_elem? p.workers t ≡ some (idle c)
        → ((run (turns t rs) p).queue ≡ [])
          × ((run (turns t rs) p).results ≡ write_all is rs p.results)
    by_queue [] [] p e l up at = (e, refl)
    by_queue [] (i ∷ is) p e l up at = absurd (ground arith)
    by_queue (r ∷ rs) [] p e l up at = absurd (ground arith)
    by_queue (r ∷ rs) (i ∷ is) p e l up at =
        let after = served t c i is r p in
        let at' =
          get_elem?-set t (idle c) (cleaning c) (set t (cleaning c) (set t (busy c i) p.workers)) (
            get_elem?-set t (cleaning c) (busy c i) (set t (busy c i) p.workers)
              (get_elem?-set t (busy c i) (idle c) p.workers at)) in
        let rest = by_queue rs is after refl (omega arith) up at' in
        subst
          (λ x.
            ((run (turns t rs) x).queue ≡ [])
            × ((run (turns t rs) x).results ≡ write_all is rs after.results))
          (sym (turn-served t c i is r p e up at)) rest
