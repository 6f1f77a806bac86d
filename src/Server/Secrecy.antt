-- ===== src/Server/Secrecy.antt =====
-- Who is shown the invite token of a game.
use byte_battle.Prelude.{
  ℕ, ◌≡◌, refl, sym, ap, ◌∙◌, if◌then◌else◌, Bool, true, false, ◌⊎◌, inl, inr, some, none, any,
  List, String, subst₂,
}
use mathlib.Core.Option
use byte_battle.Db.Rows.{Db, Game, Uuid}
use byte_battle.Db.Exec.{World, Action, ok, pure, ◌>>=◌, ◌>>◌, >>=-eq-ok}
use byte_battle.Db.Reads.{Reads-ok}
use byte_battle.Queries.GameParticipants.{is_member}
use byte_battle.Game.Create as Create
use byte_battle.Server.Holders.{
  create_game-creator, start_game-creator, cancel_game-creator, complete_game-creator,
  join_game_by_token-member, can_access_game-allowed, can_access_game-Reads,
}
use byte_battle.Game.Members as Members
use byte_battle.Game.Progress as Progress
use byte_battle.Game.Read as Read
use byte_battle.Game.Reading.{get_game-Reads, get_participants-Reads, get_game_problem_ids-Reads}
use byte_battle.Server.Games.{
  ApiGame, or_default, int16_of, CreateGameRequest, to_api_game, enrich_game, create_game, get_game,
  start_game, complete_game, leave_game, cancel_game, get_game_by_token, join_game_by_token,
  timeout_game,
}

-- The requests that are answered with a game.
pub data GameCall : Type 0 where
  create : CreateGameRequest → GameCall
  get start leave cancel time_out : ℕ → GameCall
  complete : ℕ → Uuid → GameCall
  by_token join_by_token : Uuid → GameCall

unfoldable pub respond : GameCall → Uuid → Action ApiGame
respond (create body) u = create_game body u
respond (get id) u = get_game id u
respond (start id) u = start_game id u
respond (leave id) u = leave_game id u
respond (cancel id) u = cancel_game id u
respond (time_out id) u = timeout_game id u
respond (complete id winner) u = complete_game id winner u
respond (by_token token) u = get_game_by_token token
respond (join_by_token token) u = join_game_by_token token u

-- The game is public, or the user has created it or is one of its players.
abbrev pub MayInvite : Uuid → Db → ApiGame → Type 0
MayInvite u d a =
    (a.is_public ≡ true) ⊎ (a.creator_id ≡ u) ⊎ (any (is_member a.id u) d.game_participants ≡ true)

abbrev Shown : Uuid → World → Action ApiGame → Type 0
Shown u w m =
    (a : ApiGame) (t : Uuid) → (m w).0 ≡ ok a → a.invite_token ≡ some t → MayInvite u (m w).1.db a

ok-injective : {A : Type 0} {a b : A} → ok a ≡ ok b → a ≡ b
ok-injective h = cc

-- What a handler adds to a game.
enrich_game-ok :
    (g : Game) (show : Bool) (w : World) (a : ApiGame)
    → (enrich_game g show w).0 ≡ ok a
    → ((enrich_game g show w).1.db ≡ w.db)
      × (ps : List Read.Participant) × (ids : List String) × (a ≡ to_api_game g ps ids show)
unfolding enrich_game
enrich_game-ok g show w a h =
    let (ps, v, e1, same, run, h') =
      Reads-ok (Read.get_participants g.id)
        (λ ps. Read.get_game_problem_ids g.id >>= λ ids. pure (to_api_game g ps ids show)) w a
        (get_participants-Reads g.id) h in
    let (ids, v', e2, same', run', h'') =
      Reads-ok (Read.get_game_problem_ids g.id) (λ ids. pure (to_api_game g ps ids show)) v a
        (get_game_problem_ids-Reads g.id) h' in
    (ap (λ r. r.1.db) run ∙ ap (λ r. r.1.db) run' ∙ same' ∙ same, ps, ids, sym (ok-injective h''))

abbrev Allowed : Uuid → Db → Game → Type 0
Allowed u d g =
    (g.is_public ≡ true) ⊎ (g.creator_id ≡ u) ⊎ (any (is_member g.id u) d.game_participants ≡ true)

shown_only : (c : Bool) (t r : Uuid) → (if c then some r else none) ≡ some t → c ≡ true
shown_only true t r h = refl
shown_only false t r h = cc

-- A handler that calls a method and then shows its game, with the token if the test says so.
enriched :
    (m : Action Game) (show : Game → Bool) (u : Uuid) (w : World)
    → ((g : Game) → (m w).0 ≡ ok g → show g ≡ true → Allowed u (m w).1.db g)
    → Shown u w (m >>= λ g. enrich_game g (show g))
unfolding to_api_game
enriched m show u w may a t h shown =
    let (g, e, run) = >>=-eq-ok m (λ g. enrich_game g (show g)) w a h in
    let (same, ps, ids, eq) = enrich_game-ok g (show g) (m w).1 a (sym (ap (λ r. r.0) run) ∙ h) in
    let at : ((m >>= λ g1. enrich_game g1 (show g1)) w).1.db ≡ (m w).1.db =
      ap (λ r. r.1.db) run ∙ same in
    let visible : show g ≡ true =
      shown_only (show g) t g.invite_token (ap (λ b. b.invite_token) (sym eq) ∙ shown) in
    subst₂ (MayInvite u) (sym at) (sym eq) (may g e visible)

get_game-Shown : (id : ℕ) (u : Uuid) (w : World) → Shown u w (get_game id u)
unfolding get_game to_api_game
get_game-Shown id u w a t h shown =
    let (g, v, e1, same, run, h') =
      Reads-ok (Read.get_game id) (λ g. Read.can_access_game g u >> enrich_game g true) w a
        (get_game-Reads id) h in
    let (_, v', e2, same', run', h'') =
      Reads-ok (Read.can_access_game g u) (λ _. enrich_game g true) v a (can_access_game-Reads g u)
        h' in
    let (kept, ps, ids, eq) = enrich_game-ok g true v' a h'' in
    subst₂ (MayInvite u) (sym (ap (λ r. r.1.db) (run ∙ run') ∙ kept ∙ same')) (sym eq)
      (public_or (can_access_game-allowed g u v e2))
  where
    public_or : {P Q R : Type 0} → P ⊎ R → P ⊎ Q ⊎ R
    public_or (inl p) = inl p
    public_or (inr r) = inr (inr r)

respond-Shown : (c : GameCall) (u : Uuid) (w : World) → Shown u w (respond c u)
unfolding respond create_game start_game complete_game leave_game cancel_game get_game_by_token
    join_game_by_token timeout_game
respond-Shown (create body) u w =
    let is_solo = or_default false body.is_solo in
    let is_public = if is_solo then false else or_default true body.is_public in
    let limit = Option.map int16_of body.time_limit_minutes in
    enriched (Create.create_game u body.problem_ids is_public is_solo limit) (λ g. true) u w
      λ g e s. inr (inl (create_game-creator u body.problem_ids is_public is_solo limit w g e))
respond-Shown (get id) u w = get_game-Shown id u w
respond-Shown (start id) u w =
    enriched (Progress.start_game id u) (λ g. true) u w
      λ g e s. inr (inl (start_game-creator id u w g e))
respond-Shown (leave id) u w =
    enriched (Members.leave_game id u) (λ g. g.is_public) u w λ g e s. inl s
respond-Shown (cancel id) u w =
    enriched (Progress.cancel_game id u) (λ g. true) u w
      λ g e s. inr (inl (cancel_game-creator id u w g e))
respond-Shown (time_out id) u w = enriched (Progress.timeout_game id u) (λ g. false) u w λ g e s. cc
respond-Shown (complete id winner) u w =
    enriched (Progress.complete_game id u winner) (λ g. true) u w
      λ g e s. inr (inl (complete_game-creator id u winner w g e))
respond-Shown (by_token token) u w =
    enriched (Members.get_game_by_token token) (λ g. g.is_public) u w λ g e s. inl s
respond-Shown (join_by_token token) u w =
    enriched (Members.join_game_by_token token u) (λ g. true) u w
      λ g e s. inr (inr (join_game_by_token-member token u w g e))

-- Whatever request on a game a user makes and whatever round trips fail, an answer that shows a
-- game's invite token shows a game that is public, or that the user has created or plays in.
pub respond-MayInvite :
    (c : GameCall) (u : Uuid) (w : World) (a : ApiGame) (t : Uuid)
    → (respond c u w).0 ≡ ok a
    → a.invite_token ≡ some t
    → MayInvite u (respond c u w).1.db a
respond-MayInvite c u w a t h shown = respond-Shown c u w a t h shown
