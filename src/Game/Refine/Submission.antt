-- ===== src/Game/Refine/Submission.antt =====
-- HandleAcceptedSubmission and the methods that are not one transaction.
use byte_battle.Prelude.{
  ℕ, suc, ◌≡◌, ◌⊎◌, inl, inr, refl, ◌∙◌, Bool, true, List, [], ◌∷◌, update, find?, some, none, any,
  arith, Option-cases, Bool-cases, any-find?,
}
use byte_battle.Db.Rows.{Game, GameParticipant, Uuid, active}
use byte_battle.Db.Exec.{World, ok, transaction, statement, to_int32, next_call}
use byte_battle.Queries.Games.{
  find_game, get_game_for_update, get_game_by_id, get_game_by_invite_token, token_is, update_game,
  completed, timed_out, delete_game_rows,
}
use byte_battle.Queries.Games as Games
use byte_battle.Queries.GameParticipants.{
  is_member, advance_participant, advanced, advance_participant_problem,
}
use byte_battle.Queries.GameProblems.{count_game_problems}
use byte_battle.Game.Members.{get_game_by_token, join_game, join_game_by_token}
use byte_battle.Game.Progress.{
  finish_game, complete_game, claim_victory, handle_accepted_submission, winner_of, check_timeout,
  timeout_game, delete_game,
}
use byte_battle.Game.Change.{Changes, once, and_then, nothing, win, time_out, advance, remove}
use byte_battle.Game.Refine.Found.{find_game-id, found_by, transaction-Changes}
use byte_battle.Game.Refine.Methods.{finish_game-Changes, join_game-Changes}

module _ (id : ℕ) (user : Uuid) (w : World) where
  claim_victory-found :
      (r : Game × Bool)
      → (claim_victory id user w).0 ≡ ok r
      → ¬ (find_game (to_int32 id) w.db ≡ none)
  unfolding claim_victory transaction statement get_game_for_update
  claim_victory-found r h missing = ground arith

  claim_victory-ok :
      (r : Game × Bool) (g : Game)
      → find_game (to_int32 id) w.db ≡ some g
      → (claim_victory id user w).0 ≡ ok r
      → (g.status ≡ active)
        × ((claim_victory id user w).1.db
            ≡ update_game (to_int32 id) (completed (winner_of g user) w.now) w.db)
  unfolding claim_victory transaction statement get_game_for_update Games.complete_game
  claim_victory-ok r g f h = ground (arith, find_game-id (to_int32 id) w.db g)

  -- The winner is the creator of a solo game, or the player.
  winner_of-joined :
      (g : Game)
      → any (is_member (to_int32 id) user) w.db.game_participants ≡ true
      → (winner_of g user ≡ g.creator_id)
        ⊎ (any (is_member (to_int32 id) (winner_of g user)) w.db.game_participants ≡ true)
  winner_of-joined g joined = ground arith

  claim_victory-Changes :
      any (is_member (to_int32 id) user) w.db.game_participants ≡ true
      → Changes w.now w.db (claim_victory id user w).1.db
  unfolding claim_victory
  claim_victory-Changes joined = transaction-Changes _ w λ r h.
      let (g, f) = found_by _ (claim_victory-found r h) in
      let (runs, e) = claim_victory-ok r g f h in
      once (win g (to_int32 id) (winner_of g user) f runs (winner_of-joined g joined) e)

-- The world in which HandleAcceptedSubmission claims the victory.
abbrev pub after_advance : ℕ → Uuid → World → World
after_advance i user w = record w {
  db = advance_participant i user w.db;
  calls = suc (suc w.calls);
}

any-update-advanced :
    (i j : ℕ) (u v : Uuid) (ps : List GameParticipant)
    → any (is_member j v) (update (is_member i u) advanced ps) ≡ any (is_member j v) ps
any-update-advanced i j u v [] = refl
any-update-advanced i j u v (p ∷ ps) = ground (arith, any-update-advanced i j u v ps)

module _ (id : ℕ) (user : Uuid) (w : World) where
  handle_accepted_submission-cases :
      ((handle_accepted_submission id user w).1.db ≡ w.db)
      ⊎ ((any (is_member (to_int32 id) user) w.db.game_participants ≡ true)
          × (((handle_accepted_submission id user w).1.db
                ≡ advance_participant (to_int32 id) user w.db)
              ⊎ (handle_accepted_submission id user w
                  ≡ claim_victory id user (after_advance (to_int32 id) user w))))
  unfolding handle_accepted_submission advance_participant_problem count_game_problems
      get_game_by_id statement
  handle_accepted_submission-cases =
      elim (Option-cases (find? (is_member (to_int32 id) user) w.db.game_participants)) [
        | inl missing ↦ inl (ground arith)
        | inr (p, f) ↦
            ground (arith, any-find? (is_member (to_int32 id) user) w.db.game_participants p f)
      ]

  pub handle_accepted_submission-Changes :
      Changes w.now w.db (handle_accepted_submission id user w).1.db
  handle_accepted_submission-Changes = elim handle_accepted_submission-cases [
    | inl same ↦ once (nothing same)
    | inr (joined, inl moved) ↦ once (advance (to_int32 id) user joined moved)
    | inr (joined, inr claimed) ↦
        let i = to_int32 id in
        let w' = after_advance i user w in
        rw claimed (
          and_then (once (advance i user joined refl)) (
            claim_victory-Changes id user w'
              (any-update-advanced i i user user w.db.game_participants ∙ joined)))
  ]

-- What a method does before its transaction changes nothing.
module _ (id : ℕ) (user winner : Uuid) (w : World) where
  complete_game-cases :
      ((complete_game id user winner w).1.db ≡ w.db)
      ⊎ ((complete_game id user winner w).1.db ≡ (finish_game id winner (next_call w)).1.db)
  unfolding complete_game statement get_game_by_id
  complete_game-cases = ground arith

  pub complete_game-Changes : Changes w.now w.db (complete_game id user winner w).1.db
  complete_game-Changes = elim complete_game-cases [
    | inl same ↦ once (nothing same)
    | inr e ↦ rw e (finish_game-Changes id winner (next_call w))
  ]

module _ (token user : Uuid) (w : World) where
  join_game_by_token-cases :
      ((join_game_by_token token user w).1.db ≡ w.db)
      ⊎ ((g : Game) × ((join_game_by_token token user w).1.db
            ≡ (join_game g.id user (next_call w)).1.db))
  unfolding join_game_by_token get_game_by_token get_game_by_invite_token statement
  join_game_by_token-cases = elim (Option-cases (find? (token_is token) w.db.games)) [
    | inl missing ↦ inl (ground arith)
    | inr (g, f) ↦ elim (Bool-cases (w.fails w.calls)) [
      | inl down ↦ inl (ground arith)
      | inr up ↦ inr (g, ground arith)
    ]
  ]

  pub join_game_by_token-Changes : Changes w.now w.db (join_game_by_token token user w).1.db
  join_game_by_token-Changes = elim join_game_by_token-cases [
    | inl same ↦ once (nothing same)
    | inr (g, e) ↦ rw e (join_game-Changes g.id user (next_call w))
  ]

module _ (id : ℕ) (user : Uuid) (w : World) where
  timeout_game-ok :
      (g : Game)
      → find_game (to_int32 id) w.db ≡ some g
      → ((timeout_game id user w).1.db ≡ w.db)
        ⊎ ((g.status ≡ active)
            × (g.is_solo ≡ true)
            × (g.creator_id ≡ user)
            × ((timeout_game id user w).1.db ≡ update_game (to_int32 id) (timed_out w.now) w.db))
  unfolding timeout_game check_timeout statement get_game_by_id Games.timeout_game
  timeout_game-ok g f = ground (arith, find_game-id (to_int32 id) w.db g)

  timeout_game-missing : find_game (to_int32 id) w.db ≡ none → (timeout_game id user w).1.db ≡ w.db
  unfolding timeout_game check_timeout statement get_game_by_id
  timeout_game-missing missing = ground arith

  pub timeout_game-Changes : Changes w.now w.db (timeout_game id user w).1.db
  timeout_game-Changes = elim (Option-cases (find_game (to_int32 id) w.db)) [
    | inl missing ↦ once (nothing (timeout_game-missing missing))
    | inr (g, f) ↦ elim (timeout_game-ok g f) [
      | inl same ↦ once (nothing same)
      | inr (runs, solo, _, e) ↦ once (time_out g (to_int32 id) f runs solo e)
    ]
  ]

  delete_game-ok :
      (g : Game)
      → find_game (to_int32 id) w.db ≡ some g
      → ((delete_game id user w).1.db ≡ w.db)
        ⊎ ((delete_game id user w).1.db ≡ delete_game_rows (to_int32 id) w.db)
  unfolding delete_game statement get_game_by_id Games.delete_game
  delete_game-ok g f = ground arith

  delete_game-missing : find_game (to_int32 id) w.db ≡ none → (delete_game id user w).1.db ≡ w.db
  unfolding delete_game statement get_game_by_id
  delete_game-missing missing = ground arith

  pub delete_game-Changes : Changes w.now w.db (delete_game id user w).1.db
  delete_game-Changes = elim (Option-cases (find_game (to_int32 id) w.db)) [
    | inl missing ↦ once (nothing (delete_game-missing missing))
    | inr (g, f) ↦ elim (delete_game-ok g f) [
      | inl same ↦ once (nothing same)
      | inr e ↦ once (remove g (to_int32 id) f e)
    ]
  ]
