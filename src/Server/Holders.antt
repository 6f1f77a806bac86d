-- ===== src/Server/Holders.antt =====
-- Whose game it is that a method returns.
use byte_battle.Prelude.{
  ℕ, ◌≡◌, ap, ◌∙◌, sym, subst, Bool, true, any, arith, List, String, Option, some, none, ◌⊎◌,
  any-append, [], ◌∷◌,
}
use byte_battle.Db.Rows.{Game, Uuid}
use byte_battle.Db.Exec.{World, ok, statement, transaction, to_int32, >>=-eq-ok}
use byte_battle.Queries.Games.{find_game, get_game_by_id, get_game_for_update}
use byte_battle.Queries.Games as Queries
use byte_battle.Queries.GameParticipants.{
  is_member, new_participant, is_game_participant, add_game_participant, count_game_participants,
}
use byte_battle.Game.Create.{create_game}
use byte_battle.Game.Members.{join_game, join_game_by_token, get_game_by_token}
use byte_battle.Game.Read.{can_access_game}
use byte_battle.Db.Reads.{Reads}
use byte_battle.Game.Progress.{start_game, finish_game, complete_game, cancel_game}
use byte_battle.Game.Refine.Found.{find_game-id, found_by}
use byte_battle.Game.Refine.Methods.{join_game-found, start_game-found, cancel_game-found}
use byte_battle.Game.Refine.Creation.{create_game-ok}

-- A method returns a game of the user's own.
start_found :
    (id : ℕ) (u : Uuid) (w : World) (r g : Game)
    → find_game (to_int32 id) w.db ≡ some g
    → (start_game id u w).0 ≡ ok r
    → r.creator_id ≡ u
unfolding start_game transaction statement get_game_for_update count_game_participants
    Queries.start_game
start_found id u w r g f h = ground (arith, find_game-id (to_int32 id) w.db g)

pub start_game-creator :
    (id : ℕ) (u : Uuid) (w : World) (r : Game) → (start_game id u w).0 ≡ ok r → r.creator_id ≡ u
start_game-creator id u w r h =
    let (g, f) = found_by _ (start_game-found id u w r h) in start_found id u w r g f h

cancel_found :
    (id : ℕ) (u : Uuid) (w : World) (r g : Game)
    → find_game (to_int32 id) w.db ≡ some g
    → (cancel_game id u w).0 ≡ ok r
    → r.creator_id ≡ u
unfolding cancel_game transaction statement get_game_for_update Queries.cancel_game
cancel_found id u w r g f h = ground (arith, find_game-id (to_int32 id) w.db g)

pub cancel_game-creator :
    (id : ℕ) (u : Uuid) (w : World) (r : Game) → (cancel_game id u w).0 ≡ ok r → r.creator_id ≡ u
cancel_game-creator id u w r h =
    let (g, f) = found_by _ (cancel_game-found id u w r h) in cancel_found id u w r g f h

join_found :
    (id : ℕ) (u : Uuid) (w : World) (r g : Game)
    → find_game (to_int32 id) w.db ≡ some g
    → (join_game id u w).0 ≡ ok r
    → any (is_member r.id u) (join_game id u w).1.db.game_participants ≡ true
unfolding join_game transaction statement get_game_for_update is_game_participant
    add_game_participant
join_found id u w r g f h = ground (
  arith,
  any-append (is_member (to_int32 id) u) w.db.game_participants
      (new_participant (to_int32 id) u w.db ∷ []),
  find_game-id (to_int32 id) w.db g,
)

pub join_game-member :
    (id : ℕ) (u : Uuid) (w : World) (r : Game)
    → (join_game id u w).0 ≡ ok r
    → any (is_member r.id u) (join_game id u w).1.db.game_participants ≡ true
join_game-member id u w r h =
    let (g, f) = found_by _ (join_game-found id u w r h) in join_found id u w r g f h

complete_found :
    (id : ℕ) (caller winner : Uuid) (w : World) (r g : Game)
    → find_game (to_int32 id) w.db ≡ some g
    → (complete_game id caller winner w).0 ≡ ok r
    → r.creator_id ≡ caller
unfolding complete_game finish_game transaction statement get_game_by_id get_game_for_update
    is_game_participant Queries.complete_game
complete_found id caller winner w r g f h = ground (arith, find_game-id (to_int32 id) w.db g)

complete_game-found :
    (id : ℕ) (caller winner : Uuid) (w : World) (r : Game)
    → (complete_game id caller winner w).0 ≡ ok r
    → ¬ (find_game (to_int32 id) w.db ≡ none)
unfolding complete_game statement get_game_by_id
complete_game-found id caller winner w r h missing = ground arith

pub complete_game-creator :
    (id : ℕ) (caller winner : Uuid) (w : World) (r : Game)
    → (complete_game id caller winner w).0 ≡ ok r
    → r.creator_id ≡ caller
complete_game-creator id caller winner w r h =
    let (g, f) = found_by _ (complete_game-found id caller winner w r h) in
    complete_found id caller winner w r g f h

pub create_game-creator :
    (u : Uuid) (slugs : List String) (is_public is_solo : Bool) (limit : Option ℕ) (w : World)
    (r : Game)
    → (create_game u slugs is_public is_solo limit w).0 ≡ ok r
    → r.creator_id ≡ u
create_game-creator u slugs is_public is_solo limit w r h =
    ap (λ g. g.creator_id) ((create_game-ok u slugs is_public is_solo limit w r h).3.game)

pub can_access_game-allowed :
    (g : Game) (u : Uuid) (w : World)
    → (can_access_game g u w).0 ≡ ok tt
    → (g.is_public ≡ true) ⊎ (any (is_member g.id u) w.db.game_participants ≡ true)
unfolding can_access_game is_game_participant statement
can_access_game-allowed g u w h = ground arith

pub can_access_game-Reads : (g : Game) (u : Uuid) → Reads (can_access_game g u)
unfolding can_access_game is_game_participant statement
can_access_game-Reads g u w = ground arith

pub join_game_by_token-member :
    (token : Uuid) (u : Uuid) (w : World) (r : Game)
    → (join_game_by_token token u w).0 ≡ ok r
    → any (is_member r.id u) (join_game_by_token token u w).1.db.game_participants ≡ true
unfolding join_game_by_token
join_game_by_token-member token u w r h =
    let (g, e, run) = >>=-eq-ok (get_game_by_token token) (λ g. join_game g.id u) w r h in
    subst (λ x. any (is_member r.id u) x.1.db.game_participants ≡ true) (sym run)
      (join_game-member g.id u (get_game_by_token token w).1 r (ap (λ x. x.0) (sym run) ∙ h))
