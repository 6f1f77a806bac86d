-- ===== src/Game/Verdicts.antt =====
-- What the methods of GameService answer when no round trip fails, by the status of the game.
use byte_battle.Prelude.{ℕ, ◌≡◌, ◌==◌, ltb, if◌then◌else◌, Bool, true, false, any}
use byte_battle.ApiErr.{
  game_already_started, already_participant, not_game_creator, not_enough_players,
  game_already_cancelled, creator_cannot_leave, not_participant, cannot_cancel_finished_game,
  game_not_in_progress, validation,
}
use byte_battle.Db.Rows.{Db, Game, Uuid, pending, active, finished, cancelled}
use byte_battle.Db.Exec.{World, Result, ok, err, app}
use byte_battle.Queries.Games.{started, cancelled_at, timed_out}
use byte_battle.Game.Progress.{min_players}

-- No round trip fails.
abbrev pub IsReliable : World → Type 0
IsReliable w = (n : ℕ) → w.fails n ≡ false

abbrev pub exists : Uuid → Db → Bool
exists u d = any (λ r. r.id == u) d.users

-- What a method returns, by the status of the game.
abbrev pub join_verdict : Game → Bool → Result Game
join_verdict g already = elim g.status [
  | pending ↦ if already then err (app already_participant) else ok g
  | _ ↦ err (app game_already_started)
]

abbrev pub start_verdict : Game → Uuid → ℕ → ℕ → Result Game
start_verdict g u now players = elim g.status [
  | pending ↦
      if g.creator_id == u
      then if ltb players (min_players g.is_solo)
        then err (app not_enough_players)
        else ok (started now g)
      else err (app not_game_creator)
  | _ ↦ err (app game_already_started)
]

abbrev pub leave_verdict : Game → Uuid → Bool → Result Game
leave_verdict g u joined = elim g.status [
  | pending ↦
      if g.creator_id == u
      then err (app creator_cannot_leave)
      else if joined
      then ok g
      else err (app not_participant)
  | cancelled ↦ err (app game_already_cancelled)
  | _ ↦ err (app game_already_started)
]

abbrev pub cancel_verdict : Game → Uuid → ℕ → Result Game
cancel_verdict g u now =
    if g.creator_id == u
    then elim g.status [
      | finished ↦ err (app cannot_cancel_finished_game)
      | cancelled ↦ err (app game_already_cancelled)
      | _ ↦ ok (cancelled_at now g)
    ]
    else err (app not_game_creator)

abbrev pub timeout_verdict : Game → Uuid → ℕ → Result Game
timeout_verdict g u now =
    if g.is_solo
    then if g.creator_id == u
      then elim g.status [ active ↦ ok (timed_out now g) | _ ↦ err (app game_not_in_progress) ]
      else err (app not_game_creator)
    else err (app validation)

abbrev pub is_ok : {A : Type 0} → Result A → Bool
is_ok (ok _) = true
is_ok (err _) = false
