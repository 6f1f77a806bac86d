-- ===== src/Game/Indices.antt =====
-- The places of all players of a game at once, and one by one.
use mathlib.Core.Option
use byte_battle.Prelude.{
  ℕ, suc, ◌≤◌, ◌≡◌, refl, sym, ap, ◌∙◌, ◌==◌, if◌then◌else◌, false, Option, none, some, List, [],
  ◌∷◌, map, filter, find?, order_by, arith,
}
use byte_battle.ApiErr.{not_participant, game_not_finished}
use byte_battle.Db.Rows.{Db, Game, GameParticipant, Uuid}
use byte_battle.Db.Exec.{World, Result, ok, err, app, statement, to_int32}
use byte_battle.Queries.GameParticipants.{
  in_game, is_member, get_all_participants_problem_indices, get_participant_problem_index,
}
use byte_battle.Game.Read.{
  put_index, index_rows, participants_problem_indices, participant_problem_index,
}
use byte_battle.Game.Read.{get_game_solutions}
use byte_battle.Game.Members.{is_finished}
use byte_battle.Queries.Games.{find_game, get_game_by_id}
use byte_battle.Queries.Solutions.{GetGameSolutionsRow, join_authors, shown}
use byte_battle.Queries.Solutions as Solutions
use byte_battle.Game.Tables.{memberships}
use byte_battle.Game.Invariant.{IsConsistent}

-- m[u] of a Go map.
abbrev pub index_at : Uuid → List (Uuid × ℕ) → Option ℕ
index_at u [] = none
index_at u ((v, n) ∷ m) = if v == u then some n else index_at u m

index_at-put_index :
    (u v n : ℕ) (m : List (Uuid × ℕ))
    → index_at u (put_index v n m) ≡ (if v == u then some n else index_at u m)
unfolding put_index
index_at-put_index u v n [] = refl
index_at-put_index u v n ((x, k) ∷ m) = ground (arith, index_at-put_index u v n m)

abbrev place : GameParticipant → Uuid × ℕ
place p = (p.user_id, p.current_problem_index)

-- A player without a row among those left keeps the place that is in the map.
index_rows-absent :
    (i u : ℕ) (ps : List GameParticipant) (m : List (Uuid × ℕ))
    → memberships i u ps ≡ 0
    → index_at u (index_rows m (map place (filter (in_game i) ps))) ≡ index_at u m
unfolding index_rows
index_rows-absent i u [] m h = refl
index_rows-absent i u (p ∷ ps) m h = ground (
  arith,
  index_rows-absent i u ps m,
  index_rows-absent i u ps (put_index p.user_id p.current_problem_index m),
  index_at-put_index u p.user_id p.current_problem_index m,
)

-- A player with one row at most has the place of that row.
index_rows-once :
    (i u : ℕ) (ps : List GameParticipant) (m : List (Uuid × ℕ))
    → memberships i u ps ≤ 1
    → index_at u m ≡ none
    → index_at u (index_rows m (map place (filter (in_game i) ps)))
      ≡ Option.map (λ p. p.current_problem_index) (find? (is_member i u) ps)
unfolding index_rows
index_rows-once i u [] m h e = e
index_rows-once i u (p ∷ ps) m h e = ground (
  arith,
  e,
  index_rows-once i u ps m,
  index_rows-once i u ps (put_index p.user_id p.current_problem_index m),
  index_rows-absent i u ps (put_index p.user_id p.current_problem_index m),
  index_at-put_index u p.user_id p.current_problem_index m,
)

abbrev pub place_or_missing : Option ℕ → Result ℕ
place_or_missing none = err (app not_participant)
place_or_missing (some n) = ok n

participant_problem_index-outcome :
    (id : ℕ) (u : Uuid) (w : World) (o : Option GameParticipant)
    → find? (is_member (to_int32 id) u) w.db.game_participants ≡ o
    → w.fails w.calls ≡ false
    → (participant_problem_index id u w).0
      ≡ place_or_missing (Option.map (λ p. p.current_problem_index) o)
unfolding participant_problem_index get_participant_problem_index statement
participant_problem_index-outcome id u w none e up = ground arith
participant_problem_index-outcome id u w (some p) e up = ground arith

participants_problem_indices-ok :
    (id : ℕ) (w : World) (m : List (Uuid × ℕ))
    → (participants_problem_indices id w).0 ≡ ok m
    → m ≡ index_rows [] (map place (filter (in_game (to_int32 id)) w.db.game_participants))
unfolding participants_problem_indices get_all_participants_problem_indices statement
participants_problem_indices-ok id w m h = ground arith

-- On the same consistent database, GetParticipantProblemIndex, when its round trip does not fail,
-- gives for any user the place that the map of GetAllParticipantsProblemIndices has for that user,
-- and refuses as not_participant who is not in the map.
pub indices-eq-index :
    (id : ℕ) (u : Uuid) (w w' : World) (m : List (Uuid × ℕ))
    → IsConsistent w.db
    → (participants_problem_indices id w).0 ≡ ok m
    → w'.db ≡ w.db
    → w'.fails w'.calls ≡ false
    → (participant_problem_index id u w').0 ≡ place_or_missing (index_at u m)
indices-eq-index id u w w' m v all same up =
    let i = to_int32 id in
    let ps = w.db.game_participants in
    let place_of = Option.map (λ (p : GameParticipant). p.current_problem_index) in
    let here : index_at u m ≡ place_of (find? (is_member i u) ps) =
      ap (index_at u) (participants_problem_indices-ok id w m all)
      ∙ index_rows-once i u ps [] (v.once i u) refl in
    participant_problem_index-outcome id u w' _
      (ap (λ d. find? (is_member i u) d.game_participants) same) up
    ∙ ap place_or_missing (sym here)

-- What GetGameSolutions shows: a row for each passed solution of the game and each user who is its
-- author, in the order of creation.
abbrev pub passed_solutions : ℕ → Db → List GetGameSolutionsRow
passed_solutions i d =
    join_authors d.users (order_by (λ s. s.created_at) (filter (shown i) d.solutions))

-- When neither round trip fails and the game exists, GetGameSolutions shows the passed solutions
-- of a finished game, and refuses as game_not_finished for any other.
pub get_game_solutions-outcome :
    (id : ℕ) (w : World) (g : Game)
    → find_game (to_int32 id) w.db ≡ some g
    → w.fails w.calls ≡ false
    → w.fails (suc w.calls) ≡ false
    → (get_game_solutions id w).0 ≡ (
        if is_finished g.status
        then ok (passed_solutions (to_int32 id) w.db)
        else err (app game_not_finished))
unfolding get_game_solutions get_game_by_id Solutions.get_game_solutions statement
get_game_solutions-outcome id w g found up up' = ground arith
