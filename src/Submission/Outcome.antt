-- ===== src/Submission/Outcome.antt =====
-- What Submit does to the database and to the slot.
use byte_battle.Prelude.{
  ℕ, ◌≡◌, refl, sym, ap, ◌∙◌, subst, inl, inr, Bool, not, true, false, ◌⊎◌, Option, some, String,
  Bool-cases, Option-cases, if◌then◌else◌,
}
use byte_battle.Db.Rows.{Uuid}
use byte_battle.Db.Exec.{
  World, Action, Result, Result-cases, ok, err, app, pure, raise_if, ◌>>=◌, ◌>>◌, to_int32,
}
use byte_battle.Db.Reads.{Reads, >>=-Reads}
use byte_battle.Problem.{Problem}
use byte_battle.Problem.Store.{Cache, get_by_path}
use byte_battle.Execution.{Slots, check_rate_limit, try_acquire_slot, release_slot}
use byte_battle.Execution.Turns.{try_acquire_slot-release_slot}
use byte_battle.Queries.GameProblems.{GetGameProblemByIndexRow}
use byte_battle.Queries.Solutions.{insert_solution}
use byte_battle.Game.Members.{is_active}
use byte_battle.Game.Read.{get_game, participant_problem_index, get_game_problem_by_index}
use byte_battle.Game.Reading.{
  get_game-Reads, participant_problem_index-Reads, get_game_problem_by_index-Reads,
}
use byte_battle.ApiErr.{execution_in_progress, game_not_in_progress}
use byte_battle.Game.Invariant.{IsConsistent}
use byte_battle.Submission.Effects.{accepted-IsConsistent}
use byte_battle.Submission.{
  Executor, SubmissionResult, State, current_row, get_current_problem, execute_against_problem,
  submit_with_slot, submit_code, submit_key, ActiveProblem, ExecutionOutcome, judged,
  solution_params, logged, no_result, complete_accepted_submission, released, tried,
}
use byte_battle.Submission.Verdict.{AllPass, execute_against_problem-Verdict}

current_row-Reads : (id : ℕ) (u : Uuid) → Reads (current_row id u)
unfolding current_row
current_row-Reads id u w =
    >>=-Reads (get_game id)
      (λ g.
        raise_if (not (is_active g.status)) game_not_in_progress
        >> (participant_problem_index id u >>= λ i. get_game_problem_by_index (to_int32 id) i))
      (get_game-Reads id)
      (λ g.
        >>=-Reads (raise_if (not (is_active g.status)) game_not_in_progress)
          (λ _. participant_problem_index id u >>= λ i. get_game_problem_by_index (to_int32 id) i)
          (λ v. refl)
          λ _.
            >>=-Reads (participant_problem_index id u)
              (λ i. get_game_problem_by_index (to_int32 id) i)
              (participant_problem_index-Reads id u)
              (get_game_problem_by_index-Reads (to_int32 id)))
      w

same_second :
    {A B : Type 0} {a a' : A} {b b' : B}
    → ◌≡◌ {A = Option (A × B)} (some (a, b)) (some (a', b'))
    → b ≡ b'
same_second q = cc

module _ {L : Type 0} (new_limiter : L) (allow : ℕ → L → Bool × L) (is_full : ℕ → L → Bool)
    (run : Executor) (load_problem : String → Option Problem) (id : ℕ) (u : Uuid)
    (code language : String) where
  -- The problem that the player is at, with all of its tests passed.
  pub record Earned (w : World) (c : Cache) : Type 0 where
    pub row : GetGameProblemByIndexRow
    pub problem : Problem
    pub at_row : (current_row id u w).0 ≡ ok row
    pub loaded : (get_by_path load_problem row.artifact_path c).0 ≡ some problem
    pub passed : AllPass run code language 0 problem.test_cases

  current-service :
      (st : State L)
      → (get_current_problem new_limiter allow is_full run load_problem id u st).1.service
        ≡ st.service
  unfolding get_current_problem
  current-service st = elim (Result-cases (current_row id u st.world).0) [
    | inl (row, e) ↦ rw (e) refl
    | inr (x, e) ↦ rw (e) refl
  ]

  -- A change that the player has earned, and that keeps the games consistent.
  abbrev pub EarnedChange : State L → State L → Type 0
  EarnedChange st st' =
      Earned st.world st.cache × (IsConsistent st.world.db → IsConsistent st'.world.db)

  -- After the rate limit: the service stays, and the database does unless the tests have passed.
  abbrev Tried : State L → Result SubmissionResult × State L → Type 0
  Tried st (r, st') =
      (st'.service ≡ st.service) × ((st'.world.db ≡ st.world.db) ⊎ EarnedChange st st')

  judged-IsConsistent :
      (ap : ActiveProblem) (outcome : ExecutionOutcome) (w : World)
      → IsConsistent w.db
      → IsConsistent
          (judged new_limiter allow is_full run load_problem id u code language ap outcome w).1.db
  judged-IsConsistent ap outcome w v = elim (Bool-cases outcome.accepted) [
    | inl good ↦
        subst (λ b. IsConsistent ((if b then end_accepted ap else end_refused outcome) w).1.db)
          (sym good)
          (accepted-IsConsistent
            (solution_params new_limiter allow is_full run load_problem id u ap code language) id u
            w v)
    | inr bad ↦
        subst (λ b. IsConsistent ((if b then end_accepted ap else end_refused outcome) w).1.db)
          (sym bad) v
  ]
    where
      end_accepted : ActiveProblem → Action SubmissionResult
      end_accepted ap =
          logged (
            insert_solution
              (solution_params new_limiter allow is_full run load_problem id u ap code language))
          >> complete_accepted_submission id u

      end_refused : ExecutionOutcome → Action SubmissionResult
      end_refused outcome = pure (record no_result {
        failed_test = outcome.failed_test;
        stdout = outcome.stdout;
        stderr = outcome.stderr;
      })

  tried-Tried :
      (st : State L)
      → Tried st (
          tried new_limiter allow is_full run load_problem id u code language
            (get_current_problem new_limiter allow is_full run load_problem id u st))
  unfolding get_current_problem
  tried-Tried st = elim (Result-cases (current_row id u st.world).0) [
    | inr (x, e) ↦ rw (e) (refl, inl (current_row-Reads id u st.world))
    | inl (row, e) ↦ elim (Option-cases (get_by_path load_problem row.artifact_path st.cache).0) [
      | inl f ↦ rw (e, f) (refl, inl (current_row-Reads id u st.world))
      | inr (p, f) ↦ elim (execute_against_problem-Verdict run code language p) [
        | inl (good, _, all) ↦
            rw (e, f)
              (
                refl,
                inr (
                  record { row = row; problem = p; at_row = e; loaded = f; passed = all },
                  λ v.
                      judged-IsConsistent
                        (record { problem = p; version_id = row.problem_version_id })
                        (execute_against_problem run p code language) (current_row id u st.world).1
                        (subst IsConsistent (sym (current_row-Reads id u st.world)) v),
                ),
              )
        | inr (k, t, bad, _, _) ↦ rw (e, f, bad) (refl, inl (current_row-Reads id u st.world))
      ]
    ]
  ]

  with_slot-Tried :
      (st : State L)
      → let (r, st') =
          submit_with_slot new_limiter allow is_full run load_problem id u code language st in
        (st'.service.slots ≡ st.service.slots)
        × ((st'.world.db ≡ st.world.db) ⊎ EarnedChange st st')
  unfolding submit_with_slot check_rate_limit
  with_slot-Tried st =
      let (allowed, service) =
        check_rate_limit new_limiter allow is_full st.world.now u st.service in
      let st1 : State L = record st { service = service } in
      elim (Bool-cases allowed) [
        | inl fine ↦ let (kept, db) = tried-Tried st1 in rw (fine) (ap (λ x. x.slots) kept, db)
        | inr over ↦ rw (over) (refl, inl refl)
      ]

  abbrev Returned : State L → Type 0
  Returned st =
      (r : Result SubmissionResult) × (st' : State L) × (submit_code new_limiter allow is_full run
          load_problem id u code language st
        ≡ some (r, st'))
      × ((st'.world.db ≡ st.world.db) ⊎ EarnedChange st st')
      × (((try_acquire_slot (submit_key u) st.service.slots).0 ≡ false)
            × (r ≡ err (app execution_in_progress))
          ⊎ ((try_acquire_slot (submit_key u) st'.service.slots).0 ≡ true))

  released-some :
      (r : Result SubmissionResult) (st : State L) (s2 : Slots)
      → release_slot (submit_key u) st.service.slots ≡ some s2
      → released new_limiter allow is_full run load_problem u (r, st)
        ≡ some (r, record st { service = record st.service { slots = s2 } })
  released-some r st s2 e = rw (e, released) refl

  submit_code-Returned : (st : State L) → Returned st
  unfolding submit_code
  submit_code-Returned st =
      let slots1 : Slots = (try_acquire_slot (submit_key u) st.service.slots).1 in
      let st1 : State L = record st { service = record st.service { slots = slots1 } } in
      elim (Bool-cases (try_acquire_slot (submit_key u) st.service.slots).0) [
        | inr busy ↦ (
          err (app execution_in_progress),
          st1,
          rw (busy, submit_code) refl,
          inl refl,
          inl (busy, refl),
        )
        | inl taken ↦
            let (s2, freed, again) =
              try_acquire_slot-release_slot (submit_key u) st.service.slots taken in
            let (r, st2) =
              submit_with_slot new_limiter allow is_full run load_problem id u code language st1 in
            let (kept, db) = with_slot-Tried st1 in
            let start : submit_code new_limiter allow is_full run load_problem id u code language st
                ≡ released new_limiter allow is_full run load_problem u (
                    submit_with_slot new_limiter allow is_full run load_problem id u code language
                      st1) =
              rw (taken, submit_code) refl in
            (
              r,
              record st2 { service = record st2.service { slots = s2 } },
              start ∙ released-some r st2 s2 (ap (release_slot (submit_key u)) kept ∙ freed),
              db,
              inr again,
            )
      ]

  -- Submit returns, whatever the executor, the files and the database do, from any state in which no
  -- other goroutine acts. If the user's slot is taken it returns that an execution is in progress;
  -- otherwise the slot is free again afterwards.
  pub submit_code-returns :
      (st : State L)
      → (r : Result SubmissionResult) × (st' : State L) × (submit_code new_limiter allow is_full run
            load_problem id u code language st
          ≡ some (r, st'))
        × (((try_acquire_slot (submit_key u) st.service.slots).0 ≡ false)
              × (r ≡ err (app execution_in_progress))
            ⊎ ((try_acquire_slot (submit_key u) st'.service.slots).0 ≡ true))
  submit_code-returns st = let (r, st', e, _, slot) = submit_code-Returned st in (r, st', e, slot)

  submit_code-Change :
      (st st' : State L) (r : Result SubmissionResult)
      → submit_code new_limiter allow is_full run load_problem id u code language st ≡ some (r, st')
      → (st'.world.db ≡ st.world.db) ⊎ EarnedChange st st'
  submit_code-Change st st' r h =
      let (r0, st0, e, db, _) = submit_code-Returned st in
      let same : st0 ≡ st' = same_second (sym e ∙ h) in
      subst (λ x. (x.world.db ≡ st.world.db) ⊎ EarnedChange st x) same db

  -- Submit changes the database only if all tests of the problem that the player is at have passed.
  pub submit_code-Earned :
      (st st' : State L) (r : Result SubmissionResult)
      → submit_code new_limiter allow is_full run load_problem id u code language st ≡ some (r, st')
      → (st'.world.db ≡ st.world.db) ⊎ Earned st.world st.cache
  submit_code-Earned st st' r h = elim (submit_code-Change st st' r h) [
    | inl same ↦ inl same
    | inr (earned, _) ↦ inr earned
  ]

  -- Submit keeps the games consistent, whatever it returns and whatever round trips fail.
  pub submit_code-IsConsistent :
      (st st' : State L) (r : Result SubmissionResult)
      → submit_code new_limiter allow is_full run load_problem id u code language st ≡ some (r, st')
      → IsConsistent st.world.db
      → IsConsistent st'.world.db
  submit_code-IsConsistent st st' r h v = elim (submit_code-Change st st' r h) [
    | inl same ↦ subst IsConsistent (sym same) v
    | inr (_, keeps) ↦ keeps v
  ]
