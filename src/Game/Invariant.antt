-- ===== src/Game/Invariant.antt =====
-- What holds of the games and their players between two requests.
use byte_battle.Prelude.{
  ℕ, suc, ◌≤◌, ◌<◌, ◌≡◌, ◌≢◌, refl, sym, ◌∙◌, subst₂, ◌==◌, true, false, some, none, ◌⊎◌, inl, inr,
  List, any, arith, Option-cases,
}
use byte_battle.Db.Rows.{
  Db, Game, GameParticipant, GameProblem, Uuid, Status, pending, active, finished,
}
use byte_battle.Queries.Games.{
  find_game, update_game, started, completed, cancelled_at, timed_out, delete_game_rows,
}
use byte_battle.Queries.GameParticipants.{
  is_member, insert_participant, remove_participant, advance_participant,
}
use byte_battle.Game.Change.{
  Change, nothing, create, join, leave, start, win, time_out, cancel, advance, remove, Changes,
  here, after, founded, IsNew,
}
use byte_battle.Game.Tables.{
  memberships, find_game-update, find_game-delete, find_game-founded, founded-found,
  memberships-insert, memberships-delete, memberships-delete_game, memberships-advanced,
  any-memberships,
}

-- The winner of a finished game is one of its players; no other game has a winner.
pub record IsFair (next : ℕ) (ps : List GameParticipant) (i : ℕ) (g : Game) : Type 0 where
  pub below : i < next
  pub creator_plays : memberships i g.creator_id ps ≡ 1
  pub winner_plays :
      (u : Uuid) → g.winner_id ≡ some u → (g.status ≡ finished) × (memberships i u ps ≡ 1)

pub record IsConsistent (d : Db) : Type 0 where
  -- Nobody is twice in a game.
  pub once : (i : ℕ) (u : Uuid) → memberships i u d.game_participants ≤ 1
  -- A game that is not there has no players.
  pub orphans : (i : ℕ) (u : Uuid) → find_game i d ≡ none → memberships i u d.game_participants ≡ 0
  pub fair :
      (i : ℕ) (g : Game) → find_game i d ≡ some g → IsFair d.next_game_id d.game_participants i g

-- An update of one game that keeps its id.
module _ (f : Game → Game) (i : ℕ) (g : Game) (d : Db) (same_id : (h : Game) → (f h).id ≡ h.id)
    (found : find_game i d ≡ some g) where
  update-missing : (j : ℕ) → find_game j (update_game i f d) ≡ none → find_game j d ≡ none
  update-missing j e = ground (arith, find_game-update f i j d same_id)

  pub update-found :
      (j : ℕ) (h : Game)
      → find_game j (update_game i f d) ≡ some h
      → ((i ≡ j) × (f g ≡ h)) ⊎ (find_game j d ≡ some h)
  update-found j h e = ground (arith, find_game-update f i j d same_id)

  update-IsConsistent :
      IsConsistent d
      → IsFair d.next_game_id d.game_participants i (f g)
      → IsConsistent (update_game i f d)
  update-IsConsistent v good = record {
    once = v.once;
    orphans = λ j u e. v.orphans j u (update-missing j e);
    fair = λ j h e. elim (update-found j h e) [
      | inl (hit, new) ↦ subst₂ (IsFair d.next_game_id d.game_participants) hit new good
      | inr old ↦ v.fair j h old
    ];
  }

-- A change of the players of one game.
players-IsConsistent :
    (d : Db) (ps : List GameParticipant)
    → IsConsistent d
    → ((j : ℕ) (u : Uuid) → memberships j u ps ≤ 1)
    → ((j : ℕ) (u : Uuid) → find_game j d ≡ none → memberships j u ps ≡ 0)
    → ((j : ℕ) (u : Uuid) (g : Game)
        → find_game j d ≡ some g
        → (u ≡ g.creator_id) ⊎ (g.status ≡ finished)
        → memberships j u d.game_participants ≡ 1
        → memberships j u ps ≡ 1)
    → IsConsistent (record d { game_participants = ps })
players-IsConsistent d ps v once orphans stay = record {
  once = once;
  orphans = orphans;
  fair = λ j g f.
      let r = v.fair j g f in
      record {
        below = r.below;
        creator_plays = stay j g.creator_id g f (inl refl) r.creator_plays;
        winner_plays =
            λ u e. let (over, plays) = r.winner_plays u e in (over, stay j u g f (inr over) plays);
      };
}

module _ (now : ℕ) (d : Db) (v : IsConsistent d) where
  join-IsConsistent :
      (g : Game) (i : ℕ) (u : Uuid)
      → find_game i d ≡ some g
      → any (is_member i u) d.game_participants ≡ false
      → IsConsistent (insert_participant i u d)
  join-IsConsistent g i u f fresh =
      let law = λ (j : ℕ) (w : Uuid). memberships-insert i j u w d d.game_participants in
      let free = any-memberships i u d.game_participants in
      let w : IsConsistent (record d { next_participant_id = suc d.next_participant_id }) = record {
        once = v.once;
        orphans = v.orphans;
        fair = v.fair;
      } in
      players-IsConsistent (record d { next_participant_id = suc d.next_participant_id })
        (insert_participant i u d).game_participants w
        (λ j x. ground (arith, law j x, v.once j x, free))
        (λ j x e. ground (arith, law j x, v.orphans j x e))
        (λ j x h e who plays. ground (arith, law j x, v.once j x, free))

  leave-IsConsistent :
      (g : Game) (i : ℕ) (u : Uuid)
      → find_game i d ≡ some g
      → g.status ≡ pending
      → u ≢ g.creator_id
      → IsConsistent (remove_participant i u d)
  leave-IsConsistent g i u f waits other =
      let law = λ (j : ℕ) (x : Uuid). memberships-delete i j u x d.game_participants in
      players-IsConsistent d (remove_participant i u d).game_participants v
        (λ j x. ground (arith, law j x, v.once j x))
        (λ j x e. ground (arith, law j x, v.orphans j x e))
        (λ j x h e who plays. ground (arith, law j x))

  advance-IsConsistent : (i : ℕ) (u : Uuid) → IsConsistent (advance_participant i u d)
  advance-IsConsistent i u =
      let law = λ (j : ℕ) (x : Uuid). memberships-advanced i j u x d.game_participants in
      players-IsConsistent d (advance_participant i u d).game_participants v
        (λ j x. ground (arith, law j x, v.once j x))
        (λ j x e. ground (arith, law j x, v.orphans j x e))
        (λ j x h e who plays. ground (arith, law j x))

  delete-IsConsistent : (i : ℕ) → IsConsistent (delete_game_rows i d)
  delete-IsConsistent i = record {
    once = λ j x. ground (arith, memberships-delete_game i j x d.game_participants, v.once j x);
    orphans = λ j x e. ground (
      arith,
      memberships-delete_game i j x d.game_participants,
      v.orphans j x,
      find_game-delete i j d,
    );
    fair = λ j h e.
        let (there, apart) : (find_game j d ≡ some h) × ((i == j) ≡ false) =
          (ground (arith, find_game-delete i j d), ground (arith, find_game-delete i j d)) in
        let r = v.fair j h there in
        let law = λ (x : Uuid). memberships-delete_game i j x d.game_participants in
        record {
          below = r.below;
          creator_plays = ground (arith, law h.creator_id, r.creator_plays);
          winner_plays =
              λ u won. let (over, plays) = r.winner_plays u won in (over, ground (arith, law u));
        };
  }

  -- The id of the next game is free.
  pub next_is_free : find_game d.next_game_id d ≡ none
  next_is_free = elim (Option-cases (find_game d.next_game_id d)) [
    | inl free ↦ free
    | inr (g, f) ↦ absurd (omega (arith, (v.fair d.next_game_id g f).below))
  ]

  IsFair-create_old :
      (j : ℕ) (g h : Game)
      → IsFair d.next_game_id d.game_participants j h
      → IsFair
          (suc d.next_game_id)
          (insert_participant d.next_game_id g.creator_id d).game_participants
          j
          h
  IsFair-create_old j g h r =
      let law =
        λ (x : Uuid). memberships-insert d.next_game_id j g.creator_id x d d.game_participants in
      record {
        below = omega (arith, r.below);
        creator_plays = ground (arith, law h.creator_id, r.below, r.creator_plays);
        winner_plays = λ u won.
            let (over, plays) = r.winner_plays u won in (over, ground (arith, law u, r.below));
      }

  IsFair-create_new :
      (g : Game)
      → g.winner_id ≡ none
      → IsFair
          (suc d.next_game_id)
          (insert_participant d.next_game_id g.creator_id d).game_participants
          d.next_game_id
          g
  IsFair-create_new g no_winner = record {
    below = omega arith;
    creator_plays = ground (
      arith,
      memberships-insert d.next_game_id d.next_game_id g.creator_id g.creator_id d
          d.game_participants,
      v.orphans d.next_game_id g.creator_id next_is_free,
    );
    winner_plays = λ u won. absurd (ground arith);
  }

  create-IsConsistent :
      (g : Game) (rows : List GameProblem) → IsNew now d g → IsConsistent (founded g rows d)
  create-IsConsistent g rows new =
      let law = λ (j : ℕ) (x : Uuid).
        memberships-insert d.next_game_id j g.creator_id x d d.game_participants in
      let free = λ (x : Uuid). v.orphans d.next_game_id x next_is_free in
      record {
        once = λ j x. ground (arith, law j x, v.once j x, free x);
        orphans = λ j x e.
            ground (arith, law j x, v.orphans j x, find_game-founded g rows j d, new.numbered);
        fair = λ j h e. elim (founded-found now d g rows j h new e) [
          | inl (at, is) ↦
              subst₂ (IsFair (suc d.next_game_id) (founded g rows d).game_participants) at is
                (IsFair-create_new g new.no_winner)
          | inr old ↦ IsFair-create_old j g h (v.fair j h old)
        ];
      }

  -- A game that is not finished has no winner, and gets none but by `win`.
  unfinished-IsFair :
      (i : ℕ) (g h : Game)
      → find_game i d ≡ some g
      → g.status ≢ finished
      → h.creator_id ≡ g.creator_id
      → h.winner_id ≡ g.winner_id
      → IsFair d.next_game_id d.game_participants i h
  unfinished-IsFair i g h f open_game same_creator same_winner =
      let r = v.fair i g f in
      record {
        below = r.below;
        creator_plays = rw same_creator r.creator_plays;
        winner_plays = λ u won. absurd (open_game (r.winner_plays u (sym same_winner ∙ won)).0);
      }

  won-IsFair :
      (i : ℕ) (g : Game) (u : Uuid)
      → find_game i d ≡ some g
      → (u ≡ g.creator_id) ⊎ (any (is_member i u) d.game_participants ≡ true)
      → IsFair d.next_game_id d.game_participants i (completed u now g)
  won-IsFair i g u f who =
      let r = v.fair i g f in
      record {
        below = r.below;
        creator_plays = r.creator_plays;
        winner_plays = λ x won. (
          refl,
          ground (arith, any-memberships i u d.game_participants, v.once i u, r.creator_plays),
        );
      }

not_finished : {s : Status} → (s ≡ pending) ⊎ (s ≡ active) → s ≢ finished
not_finished s e = ground arith

-- Every change of `Change` keeps the invariant.
pub Change-IsConsistent : {now : ℕ} {d e : Db} → Change now d e → IsConsistent d → IsConsistent e
Change-IsConsistent (nothing e) v = rw e v
Change-IsConsistent {now} {d} (create g slugs rows new ns _ _ e) v =
    rw e (create-IsConsistent now d v g rows new)
Change-IsConsistent {now} {d} (join g i u f _ fresh e) v =
    rw e (join-IsConsistent now d v g i u f fresh)
Change-IsConsistent {now} {d} (leave g i u f waits other e) v =
    rw e (leave-IsConsistent now d v g i u f waits other)
Change-IsConsistent {now} {d} (start g i f waits _ e) v = rw e (
    update-IsConsistent (started now) i g d (λ h. refl) f v
      (unfinished-IsFair now d v i g _ f (not_finished (inl waits)) refl refl))
Change-IsConsistent {now} {d} (win g i u f runs who e) v =
    rw e
      (update-IsConsistent (completed u now) i g d (λ h. refl) f v (won-IsFair now d v i g u f who))
Change-IsConsistent {now} {d} (time_out g i f runs _ e) v = rw e (
    update-IsConsistent (timed_out now) i g d (λ h. refl) f v
      (unfinished-IsFair now d v i g _ f (not_finished (inr runs)) refl refl))
Change-IsConsistent {now} {d} (cancel g i f open_game e) v = rw e (
    update-IsConsistent (cancelled_at now) i g d (λ h. refl) f v
      (unfinished-IsFair now d v i g _ f (not_finished open_game) refl refl))
Change-IsConsistent {now} {d} (advance i u _ e) v = rw e (advance-IsConsistent now d v i u)
Change-IsConsistent {now} {d} (remove g i f e) v = rw e (delete-IsConsistent now d v i)

pub Changes-IsConsistent : {now : ℕ} {d e : Db} → Changes now d e → IsConsistent d → IsConsistent e
Changes-IsConsistent here v = v
Changes-IsConsistent (after cs c) v = Change-IsConsistent c (Changes-IsConsistent cs v)
