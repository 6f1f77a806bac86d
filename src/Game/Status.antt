-- ===== src/Game/Status.antt =====
-- The status of a game over time: pending, active, finished, with cancelled as the way out.
use byte_battle.Prelude.{ℕ, ◌≤◌, ◌<◌, ◌≡◌, refl, sym, ◌∙◌, subst, ◌⊎◌, inl, inr, some, List, arith}
use byte_battle.Db.Rows.{Db, Game, Status, pending, active, finished, cancelled}
use byte_battle.Queries.Games.{find_game, update_game, started, completed, cancelled_at, timed_out}
use byte_battle.Db.Exec.{World}
use byte_battle.Game.Change.{
  Change, nothing, create, join, leave, start, win, time_out, cancel, advance, remove, Changes,
  here, after,
}
use byte_battle.Game.Tables.{find_game-delete, founded-found}
use byte_battle.Game.Invariant.{update-found}
use byte_battle.Game.Requests.{Request, serve, serve_induction}

infix 40 ◌⟶◌ ◌⟶*◌
pub data ◌⟶◌ : Status → Status → Type 0 where
  begin : pending ⟶ active
  end : active ⟶ finished
  call_off : pending ⟶ cancelled
  break_off : active ⟶ cancelled

pub data ◌⟶*◌ : Status → Status → Type 0 where
  stay : {s : Status} → s ⟶* s
  go : {s t u : Status} → s ⟶* t → t ⟶ u → s ⟶* u

⟶*-trans : {s t u : Status} → s ⟶* t → t ⟶* u → s ⟶* u
⟶*-trans p stay = p
⟶*-trans p (go q e) = go (⟶*-trans p q) e

-- `h` is the game `g` at a later time.
pub record IsLater (g h : Game) : Type 0 where
  pub moved : g.status ⟶* h.status
  pub frozen : (g.status ≡ finished) ⊎ (g.status ≡ cancelled) → h ≡ g
  pub same_creator : h.creator_id ≡ g.creator_id
  pub same_token : h.invite_token ≡ g.invite_token
  pub same_solo : h.is_solo ≡ g.is_solo
  pub same_public : h.is_public ≡ g.is_public

IsLater-refl : (g : Game) → IsLater g g
IsLater-refl g = record {
  moved = stay;
  frozen = λ _. refl;
  same_creator = refl;
  same_token = refl;
  same_solo = refl;
  same_public = refl;
}

IsLater-trans : (f g h : Game) → IsLater f g → IsLater g h → IsLater f h
IsLater-trans f g h p q = record {
  moved = ⟶*-trans p.moved q.moved;
  frozen = λ over.
      let e = p.frozen over in
      q.frozen (subst (λ (x : Game). (x.status ≡ finished) ⊎ (x.status ≡ cancelled)) (sym e) over)
      ∙ e;
  same_creator = q.same_creator ∙ p.same_creator;
  same_token = q.same_token ∙ p.same_token;
  same_solo = q.same_solo ∙ p.same_solo;
  same_public = q.same_public ∙ p.same_public;
}

-- One edge from a status that is not the last.
edge-IsLater :
    (g h : Game)
    → g.status ⟶ h.status
    → h.creator_id ≡ g.creator_id
    → h.invite_token ≡ g.invite_token
    → h.is_solo ≡ g.is_solo
    → h.is_public ≡ g.is_public
    → IsLater g h
edge-IsLater g h e c t s p = record {
  moved = go stay e;
  frozen = λ over. absurd (not_last e over);
  same_creator = c;
  same_token = t;
  same_solo = s;
  same_public = p;
}
  where
    not_last : {a b : Status} → a ⟶ b → ¬ ((a ≡ finished) ⊎ (a ≡ cancelled))
    not_last begin over = ground arith
    not_last end over = ground arith
    not_last call_off over = ground arith
    not_last break_off over = ground arith

-- Where a game comes from.
abbrev From : ℕ → Db → Game → Type 0
From i d h = (g : Game) × (find_game i d ≡ some g) × IsLater g h

kept : (i : ℕ) (d : Db) (h : Game) → find_game i d ≡ some h → From i d h
kept i d h f = (h, f, IsLater-refl h)

updated :
    (f : Game → Game) (i j : ℕ) (g h : Game) (d : Db)
    → ((x : Game) → (f x).id ≡ x.id)
    → find_game i d ≡ some g
    → IsLater g (f g)
    → find_game j (update_game i f d) ≡ some h
    → From j d h
updated f i j g h d same_id found later e = elim (update-found f i g d same_id found j h e) [
  | inl (hit, new) ↦ (g, subst (λ k. find_game k d ≡ some g) hit found, subst (IsLater g) new later)
  | inr old ↦ kept j d h old
]

moved_to : (j : ℕ) (h : Game) (d e : Db) → e ≡ d → find_game j e ≡ some h → find_game j d ≡ some h
moved_to j h d e same f = subst (λ x. find_game j x ≡ some h) same f

from : {s t u : Status} → s ≡ t → t ⟶ u → s ⟶ u
from {u} e edge = subst (λ x. x ⟶ u) (sym e) edge

open_edge : {s : Status} → (s ≡ pending) ⊎ (s ≡ active) → s ⟶ cancelled
open_edge (inl e) = from e call_off
open_edge (inr e) = from e break_off

-- A game that is there after a change, and whose id had been given out before, was there before.
pub Change-From :
    {now : ℕ} {d e : Db}
    → Change now d e
    → (j : ℕ) (h : Game) → j < d.next_game_id
    → find_game j e ≡ some h
    → From j d h
Change-From {d} {e} (nothing q) j h lt f = kept j d h (moved_to j h _ e q f)
Change-From {now} {d} {e} (create g slugs rows new _ _ _ q) j h lt f =
    elim (founded-found now d g rows j h new (moved_to j h _ e q f)) [
      | inl (hit, _) ↦ absurd (omega (arith, hit, lt))
      | inr old ↦ kept j d h old
    ]
Change-From {d} {e} (join g i u _ _ _ q) j h lt f = kept j d h (moved_to j h _ e q f)
Change-From {d} {e} (leave g i u _ _ _ q) j h lt f = kept j d h (moved_to j h _ e q f)
Change-From {now} {d} {e} (start g i found waits _ q) j h lt f =
    updated (started now) i j g h d (λ x. refl) found
      (edge-IsLater g _ (from waits begin) refl refl refl refl) (moved_to j h _ e q f)
Change-From {now} {d} {e} (win g i u found runs _ q) j h lt f =
    updated (completed u now) i j g h d (λ x. refl) found
      (edge-IsLater g _ (from runs end) refl refl refl refl) (moved_to j h _ e q f)
Change-From {now} {d} {e} (time_out g i found runs _ q) j h lt f =
    updated (timed_out now) i j g h d (λ x. refl) found
      (edge-IsLater g _ (from runs end) refl refl refl refl) (moved_to j h _ e q f)
Change-From {now} {d} {e} (cancel g i found is_open q) j h lt f =
    updated (cancelled_at now) i j g h d (λ x. refl) found
      (edge-IsLater g _ (open_edge is_open) refl refl refl refl) (moved_to j h _ e q f)
Change-From {d} {e} (advance i u _ q) j h lt f = kept j d h (moved_to j h _ e q f)
Change-From {d} {e} (remove g i _ q) j h lt f =
    let f' = moved_to j h _ e q f in kept j d h (ground (arith, find_game-delete i j d))

-- Ids are never given out twice.
pub Change-next : {now : ℕ} {d e : Db} → Change now d e → d.next_game_id ≤ e.next_game_id
Change-next (nothing q) = rw q (omega arith)
Change-next (create g slugs rows new _ _ _ q) = rw q (omega arith)
Change-next (join g i u _ _ _ q) = rw q (omega arith)
Change-next (leave g i u _ _ _ q) = rw q (omega arith)
Change-next (start g i _ _ _ q) = rw q (omega arith)
Change-next (win g i u _ _ _ q) = rw q (omega arith)
Change-next (time_out g i _ _ _ q) = rw q (omega arith)
Change-next (cancel g i _ _ q) = rw q (omega arith)
Change-next (advance i u _ q) = rw q (omega arith)
Change-next (remove g i _ q) = rw q (omega arith)

-- The games of `d` in a later database.
record Continues (d e : Db) : Type 0 where
  grows : d.next_game_id ≤ e.next_game_id
  comes_from : (j : ℕ) (h : Game) → j < d.next_game_id → find_game j e ≡ some h → From j d h

Continues-refl : (d : Db) → Continues d d
Continues-refl d = record { grows = omega arith; comes_from = λ j h _ f. kept j d h f }

Continues-trans : (c d e : Db) → Continues c d → Continues d e → Continues c e
Continues-trans c d e p q = record {
  grows = omega (arith, p.grows, q.grows);
  comes_from = λ j h lt f.
      let (g, found, later) = q.comes_from j h (omega (arith, p.grows, lt)) f in
      let (g', found', later') = p.comes_from j g lt found in
      (g', found', IsLater-trans g' g h later' later);
}

Changes-Continues : {now : ℕ} {d e : Db} → Changes now d e → Continues d e
Changes-Continues {d} here = Continues-refl d
Changes-Continues {d} (after {e} {f} cs c) =
    Continues-trans d e f (Changes-Continues cs)
      (record { grows = Change-next c; comes_from = Change-From c })

serve-Continues : (rs : List (ℕ × Request)) (w : World) → Continues w.db (serve rs w).db
serve-Continues rs w =
    serve_induction (Continues w.db)
      (λ now d e c p. Continues-trans w.db d e p (Changes-Continues c)) rs w (Continues-refl w.db)

-- Through any requests, whatever round trips fail, a game whose id was given out before is the
-- later state of a game that was there: its status has moved along pending, active, finished or
-- into cancelled only, a finished or cancelled game has not changed at all, and the creator, the
-- invite token, the solo flag and the visibility are the same.
pub serve-IsLater :
    (rs : List (ℕ × Request)) (w : World) (i : ℕ) (h : Game)
    → i < w.db.next_game_id
    → find_game i (serve rs w).db ≡ some h
    → (g : Game) × (find_game i w.db ≡ some g) × IsLater g h
serve-IsLater rs w i h lt f = (serve-Continues rs w).comes_from i h lt f
