-- ===== src/Game/Change.antt =====
-- What the methods of GameService may do to the database: the abstract transition system that
-- they implement. `now` is the time of the request.
use byte_battle.Prelude.{
  ℕ, suc, ◌≤◌, ◌<◌, ◌≡◌, ◌≢◌, ◌⊎◌, true, false, some, none, List, [], ◌∷◌, ◌++◌, any, filter,
  length, String, ◌==◌,
}
use byte_battle.Db.Rows.{Db, Game, GameProblem, Uuid, pending, active}
use byte_battle.Queries.Games.{
  find_game, update_game, started, completed, cancelled_at, timed_out, delete_game_rows,
}
use byte_battle.Queries.GameParticipants.{
  is_member, in_game, insert_participant, remove_participant, advance_participant,
}
use byte_battle.Game.Create.{max_game_problems}
use byte_battle.Game.Progress.{min_players}

-- The rows of a new game: one for each slug, numbered from `idx` on.
pub data Numbered (game_id : ℕ) : ℕ → List String → List GameProblem → Type 0 where
  none_left : {idx : ℕ} → Numbered game_id idx [] []
  numbered :
      {idx : ℕ} {slugs : List String} {rows : List GameProblem} {slug : String} (version : ℕ)
      → Numbered game_id (suc idx) slugs rows
      → Numbered game_id idx (slug ∷ slugs) (
          record {
            game_id = game_id;
            problem_index = idx;
            problem_id = slug;
            problem_version_id = version;
          }
          ∷ rows)

-- A new game with its problems and its creator as the one player.
abbrev pub founded : Game → List GameProblem → Db → Db
founded g rows d = insert_participant d.next_game_id g.creator_id (record d {
  games = d.games ++ (g ∷ []);
  next_game_id = suc d.next_game_id;
  game_problems = d.game_problems ++ rows;
})

-- What a new game looks like.
pub record IsNew (now : ℕ) (d : Db) (g : Game) : Type 0 where
  pub numbered : g.id ≡ d.next_game_id
  pub waits : g.status ≡ pending
  pub no_winner : g.winner_id ≡ none
  pub fresh_token : any (λ h. h.invite_token == g.invite_token) d.games ≡ false

pub data Change (now : ℕ) (d d' : Db) : Type 0 where
  nothing : d' ≡ d → Change now d d'
  create :
      (g : Game) (slugs : List String) (rows : List GameProblem)
      → IsNew now d g
      → Numbered d.next_game_id 0 slugs rows
      → 0 < length slugs
      → length slugs ≤ max_game_problems
      → d' ≡ founded g rows d
      → Change now d d'
  join :
      (g : Game) (i : ℕ) (user : Uuid)
      → find_game i d ≡ some g
      → g.status ≡ pending
      → any (is_member i user) d.game_participants ≡ false
      → d' ≡ insert_participant i user d
      → Change now d d'
  leave :
      (g : Game) (i : ℕ) (user : Uuid)
      → find_game i d ≡ some g
      → g.status ≡ pending
      → user ≢ g.creator_id
      → d' ≡ remove_participant i user d
      → Change now d d'
  start :
      (g : Game) (i : ℕ)
      → find_game i d ≡ some g
      → g.status ≡ pending
      → min_players g.is_solo ≤ length (filter (in_game i) d.game_participants)
      → d' ≡ update_game i (started now) d
      → Change now d d'
  win :
      (g : Game) (i : ℕ) (user : Uuid)
      → find_game i d ≡ some g
      → g.status ≡ active
      → (user ≡ g.creator_id) ⊎ (any (is_member i user) d.game_participants ≡ true)
      → d' ≡ update_game i (completed user now) d
      → Change now d d'
  time_out :
      (g : Game) (i : ℕ)
      → find_game i d ≡ some g
      → g.status ≡ active
      → g.is_solo ≡ true
      → d' ≡ update_game i (timed_out now) d
      → Change now d d'
  cancel :
      (g : Game) (i : ℕ)
      → find_game i d ≡ some g
      → (g.status ≡ pending) ⊎ (g.status ≡ active)
      → d' ≡ update_game i (cancelled_at now) d
      → Change now d d'
  advance :
      (i : ℕ) (user : Uuid)
      → any (is_member i user) d.game_participants ≡ true
      → d' ≡ advance_participant i user d
      → Change now d d'
  remove : (g : Game) (i : ℕ) → find_game i d ≡ some g → d' ≡ delete_game_rows i d → Change now d d'

-- Changes one after another.
pub data Changes (now : ℕ) (d : Db) : Db → Type 0 where
  here : Changes now d d
  after : {e f : Db} → Changes now d e → Change now e f → Changes now d f

pub once : {now : ℕ} {d e : Db} → Change now d e → Changes now d e
once c = after here c

pub and_then : {now : ℕ} {d e f : Db} → Changes now d e → Changes now e f → Changes now d f
and_then cs here = cs
and_then cs (after ds c) = after (and_then cs ds) c
