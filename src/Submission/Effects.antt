-- ===== src/Submission/Effects.antt =====
-- What an accepted submission does to the games.
use byte_battle.Prelude.{
  ℕ, ◌≡◌, refl, sym, subst, ◌⊎◌, inl, inr, Bool, true, false, arith, List, [], ◌∷◌, ◌++◌, suc,
}
use byte_battle.Db.Rows.{Db, Game, Uuid, Solution}
use byte_battle.Db.Exec.{
  World, Result, ok, err, app, game_already_finished, no_rows, constraint, db_failure,
  no_randomness, no_problem_files, email_taken, username_taken, entrance_failure, no_slug,
  invalid_name, pure, ◌>>=◌, ◌>>◌, statement, to_int32,
}
use byte_battle.Db.Reads.{Reads, >>=-Reads}
use byte_battle.Queries.Solutions.{insert_solution, InsertSolutionParams, new_solution}
use byte_battle.Game.Invariant.{IsConsistent, Changes-IsConsistent}
use byte_battle.Game.Progress.{handle_accepted_submission}
use byte_battle.Game.Refine.Submission.{handle_accepted_submission-Changes}
use byte_battle.Game.Read.{participant_problem_index, get_game_problem_id_by_index}
use byte_battle.Game.Reading.{participant_problem_index-Reads, get_game_problem_id_by_index-Reads}
use byte_battle.Submission.{
  next_problem, completed_result, complete_accepted_submission, no_result, logged,
}

next_problem-Reads : (id : ℕ) (u : Uuid) → Reads (next_problem id u)
next_problem-Reads id u w =
    >>=-Reads (participant_problem_index id u)
      (λ i. get_game_problem_id_by_index (to_int32 id) i >>= λ n.
        pure (record no_result { accepted = true; problem_id = n; problem_idx = i }))
      (participant_problem_index-Reads id u)
      (λ i.
        >>=-Reads (get_game_problem_id_by_index (to_int32 id) i)
          (λ n. pure (record no_result { accepted = true; problem_id = n; problem_idx = i }))
          (get_game_problem_id_by_index-Reads (to_int32 id) i) (λ n v. refl))
      w

completed-Reads : (id : ℕ) (u : Uuid) (r : Result (Game × Bool)) → Reads (completed_result id u r)
completed-Reads id u (ok (g, true)) w = refl
completed-Reads id u (ok (g, false)) w = next_problem-Reads id u w
completed-Reads id u (err game_already_finished) w = refl
completed-Reads id u (err (app c)) w = refl
completed-Reads id u (err no_rows) w = refl
completed-Reads id u (err constraint) w = refl
completed-Reads id u (err db_failure) w = refl
completed-Reads id u (err no_randomness) w = refl
completed-Reads id u (err no_problem_files) w = refl
completed-Reads id u (err email_taken) w = refl
completed-Reads id u (err username_taken) w = refl
completed-Reads id u (err entrance_failure) w = refl
completed-Reads id u (err no_slug) w = refl
completed-Reads id u (err invalid_name) w = refl

complete-IsConsistent :
    (id : ℕ) (u : Uuid) (w : World)
    → IsConsistent w.db
    → IsConsistent (complete_accepted_submission id u w).1.db
unfolding complete_accepted_submission
complete-IsConsistent id u w v =
    let (r, w') = handle_accepted_submission id u w in
    subst IsConsistent (sym (completed-Reads id u r w'))
      (Changes-IsConsistent (handle_accepted_submission-Changes id u w) v)

-- Solutions are of no consequence to the games.
with_solutions :
    (d : Db) (n : ℕ) (ss : List Solution)
    → IsConsistent d
    → IsConsistent (record d { solutions = ss; next_solution_id = n })
with_solutions d n ss v = record { once = v.once; orphans = v.orphans; fair = v.fair }

insert_solution-db :
    (arg : InsertSolutionParams) (w : World)
    → ((insert_solution arg w).1.db ≡ w.db)
      ⊎ ((insert_solution arg w).1.db
          ≡ record w.db { next_solution_id = suc w.db.next_solution_id })
      ⊎ ((insert_solution arg w).1.db ≡ record w.db {
        next_solution_id = suc w.db.next_solution_id;
        solutions = w.db.solutions ++ (new_solution arg (record w { calls = suc w.calls }) ∷ []);
      })
unfolding insert_solution statement
insert_solution-db arg w = ground arith

insert-IsConsistent :
    (arg : InsertSolutionParams) (w : World)
    → IsConsistent w.db
    → IsConsistent (insert_solution arg w).1.db
insert-IsConsistent arg w v = elim (insert_solution-db arg w) [
  | inl same ↦ subst IsConsistent (sym same) v
  | inr (inl e) ↦
      subst IsConsistent (sym e) (with_solutions w.db (suc w.db.next_solution_id) w.db.solutions v)
  | inr (inr e) ↦ subst IsConsistent (sym e) (with_solutions w.db _ _ v)
]

-- The end of a submission whose tests have passed keeps the games consistent.
pub accepted-IsConsistent :
    (arg : InsertSolutionParams) (id : ℕ) (u : Uuid) (w : World)
    → IsConsistent w.db
    → IsConsistent ((logged (insert_solution arg) >> complete_accepted_submission id u) w).1.db
accepted-IsConsistent arg id u w v =
    complete-IsConsistent id u (insert_solution arg w).1 (insert-IsConsistent arg w v)
