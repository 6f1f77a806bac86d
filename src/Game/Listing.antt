-- ===== src/Game/Listing.antt =====
-- Pages of games: what ListGames returns.
use byte_battle.Prelude.{
  ℕ, ◌≤◌, ◌≡◌, sym, ◌∙◌, ap, true, List, filter, length, take, drop, order_by, arith,
}
use mathlib.Core.List.{reverse}
use byte_battle.Prelude.Int.{ℤ, int32_of}
use byte_battle.Prelude.Select.{
  All, length-take-le, All-take, All-drop, All-reverse, All-order_by, All-filter,
}
use byte_battle.Db.Rows.{Db, Game, Uuid}
use byte_battle.Db.Exec.{World, Result, ok, pure, ◌>>=◌, >>=-eq-ok, statement}
use byte_battle.Queries.Games.{visible_to, count_games_for_user, list_games_for_user}
use byte_battle.Game.Read.{clamp_limit, clamp_offset, list_games}

-- LIMIT is at least 1 and at most 100, whatever the client asks for.
pub clamp_limit_bounds :
    (limit : ℤ) → (1 ≤ int32_of (clamp_limit limit)) × (int32_of (clamp_limit limit) ≤ 100)
clamp_limit_bounds limit = ground arith

-- The rows of a page.
abbrev page : ℕ → ℕ → Uuid → Db → List Game
page limit offset u d =
    take limit
      (drop offset (reverse (order_by (λ g. g.created_at) (filter (visible_to u d) d.games))))

count_games_for_user-ok :
    (u : Uuid) (w : World) (n : ℕ)
    → (count_games_for_user u w).0 ≡ ok n
    → (n ≡ length (filter (visible_to u w.db) w.db.games))
      × ((count_games_for_user u w).1.db ≡ w.db)
unfolding count_games_for_user statement
count_games_for_user-ok u w n h = ground arith

list_games_for_user-ok :
    (limit offset : ℕ) (u : Uuid) (w : World) (gs : List Game)
    → (list_games_for_user limit offset u w).0 ≡ ok gs
    → gs ≡ page limit offset u w.db
unfolding list_games_for_user statement
list_games_for_user-ok limit offset u w gs h = ground arith

ok_pair :
    (gs hs : List Game) (m n : ℕ)
    → ◌≡◌ {A = Result (List Game × ℕ)} (ok (gs, m)) (ok (hs, n))
    → (gs ≡ hs) × (m ≡ n)
ok_pair gs hs m n h = ground arith

module _ (limit offset : ℤ) (u : Uuid) (w : World) (games : List Game) (total : ℕ) where
  list_games-page :
      (list_games limit offset u w).0 ≡ ok (games, total)
      → (games ≡ page (int32_of (clamp_limit limit)) (int32_of (clamp_offset offset)) u w.db)
        × (total ≡ length (filter (visible_to u w.db) w.db.games))
  unfolding list_games
  list_games-page h =
      let l = int32_of (clamp_limit limit) in
      let o = int32_of (clamp_offset offset) in
      let (n, counted, e) =
        >>=-eq-ok (count_games_for_user u) (λ t. list_games_for_user l o u >>= λ gs. pure (gs, t)) w
          (games, total) h in
      let w' = (count_games_for_user u w).1 in
      let h' : ((list_games_for_user l o u >>= λ gs. pure (gs, n)) w').0 ≡ ok (games, total) =
        ap (λ x. x.0) (sym e) ∙ h in
      let (gs, listed, e') =
        >>=-eq-ok (list_games_for_user l o u) (λ gs. pure (gs, n)) w' (games, total) h' in
      let last : ◌≡◌ {A = Result (List Game × ℕ)} (ok (gs, n)) (ok (games, total)) =
        ap (λ x. x.0) (sym e') ∙ h' in
      let (is_count, same) = count_games_for_user-ok u w n counted in
      let (one, two) = ok_pair gs games n total last in
      (
        sym one ∙ list_games_for_user-ok l o u w' gs listed ∙ ap (page l o u) same,
        sym two ∙ is_count,
      )

  -- When ListGames succeeds, the page has at most 100 games, the user may see each of them, and
  -- the total counts the games that the user may see.
  pub list_games_visible :
      (list_games limit offset u w).0 ≡ ok (games, total)
      → (length games ≤ 100)
        × All (λ g. visible_to u w.db g ≡ true) games
        × (total ≡ length (filter (visible_to u w.db) w.db.games))
  list_games_visible h =
      let (page, counted) = list_games-page h in
      let n = int32_of (clamp_limit limit) in
      let all = reverse (order_by (λ g. g.created_at) (filter (visible_to u w.db) w.db.games)) in
      let rest = drop (int32_of (clamp_offset offset)) all in
      let seen = λ (g : Game). visible_to u w.db g ≡ true in
      (
        rw page (omega (arith, length-take-le n rest, clamp_limit_bounds limit)),
        rw page (
            All-take seen n rest (
              All-drop seen _ all (
                All-reverse seen _ (
                  All-order_by seen (λ g. g.created_at) _
                    (All-filter (visible_to u w.db) w.db.games))))),
        counted,
      )
