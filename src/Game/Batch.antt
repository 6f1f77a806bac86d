-- ===== src/Game/Batch.antt =====
-- The queries for many games at once give for each game what the query for one game gives.
use byte_battle.Prelude.{
  ℕ, ◌≡◌, refl, sym, subst, ◌∙◌, ap, ◌==◌, if◌then◌else◌, Bool, true, List, [], ◌∷◌, ◌++◌, map,
  filter, any, order_by, arith, filter-append,
}
use mathlib.Core.List.{append-nil, append_assoc}
use native.Mathlib.Decide.{ℕ_discrete}
use byte_battle.Prelude.Select.{All, All-order_by, filter-order_by, order_by-same}
use byte_battle.Db.Rows.{GameParticipant, User}
use byte_battle.Db.Exec.{World, ok, statement, to_int32}
use byte_battle.Queries.GameParticipants as Participants
use byte_battle.Queries.GameParticipants.{
  in_game, one_of, join_users, name_row, GetParticipantsRow, is_member, is_game_participant,
}
use byte_battle.Game.Read.{
  Participant, to_participant, append_at, group, keyed, get_participants,
  get_participants_by_game_ids,
}

-- m[k] of a Go map of slices; a missing key gives the nil slice.
abbrev pub values_at : {A : Type 0} → ℕ → List (ℕ × List A) → List A
values_at k [] = []
values_at k ((j, vs) ∷ m) = if j == k then vs else values_at k m

abbrev with_key : {A : Type 0} → ℕ → ℕ × A → Bool
with_key k r = r.0 == k

values_at-append :
    {A : Type 0} (k j : ℕ) (v : A) (m : List (ℕ × List A))
    → values_at k (append_at j v m) ≡ (if j == k then values_at k m ++ (v ∷ []) else values_at k m)
unfolding append_at
values_at-append k j v [] = ground arith
values_at-append k j v ((i, vs) ∷ m) = ground (arith, values_at-append k j v m)

-- The loop that groups rows by a key collects the rows of each key, in their order.
pub values_at-group :
    {A : Type 0} (k : ℕ) (rows : List (ℕ × A)) (m : List (ℕ × List A))
    → values_at k (group m rows) ≡ values_at k m ++ map (λ r. r.1) (filter (with_key k) rows)
unfolding group
values_at-group k [] m = sym (append-nil _)
values_at-group k ((j, v) ∷ rows) m = ground (
  arith,
  values_at-group k rows (append_at j v m),
  values_at-append k j v m,
  append_assoc (values_at k m) (v ∷ []) (map (λ r. r.1) (filter (with_key k) rows)),
)

-- Rows of one game among the rows with names.
filter-named :
    (i : ℕ) (p : GameParticipant) (us : List User)
    → filter (with_key i) (map keyed (map (name_row p) us))
      ≡ (if p.game_id == i then map keyed (map (name_row p) us) else [])
filter-named i p [] = ground arith
filter-named i p (u ∷ us) = ground (arith, filter-named i p us)

map-append_rows :
    (xs ys : List GetParticipantsRow) → map keyed (xs ++ ys) ≡ map keyed xs ++ map keyed ys
map-append_rows [] ys = refl
map-append_rows (x ∷ xs) ys = ground (arith, map-append_rows xs ys)

-- Selecting the rows of one game before or after the join with the users is the same.
filter-join_users :
    (i : ℕ) (us : List User) (ps : List GameParticipant)
    → filter (with_key i) (map keyed (join_users us ps))
      ≡ map keyed (join_users us (filter (in_game i) ps))
unfolding join_users
filter-join_users i us [] = refl
filter-join_users i us (p ∷ ps) =
    let named = map (name_row p) (filter (λ u. u.id == p.user_id) us) in
    ground (
      arith,
      map-append_rows named (join_users us ps),
      map-append_rows named (join_users us (filter (in_game i) ps)),
      filter-append (with_key i) (map keyed named) (map keyed (join_users us ps)),
      filter-named i p (filter (λ u. u.id == p.user_id) us),
      filter-join_users i us ps,
    )

in_game-All : (i : ℕ) (ps : List GameParticipant) → All (λ p. p.game_id ≡ i) (filter (in_game i) ps)
in_game-All i [] = tt
in_game-All i (p ∷ ps) = ground (arith, in_game-All i ps)

filter-one_of :
    (i : ℕ) (is : List ℕ) (ps : List GameParticipant)
    → any (λ j. i == j) is ≡ true
    → filter (in_game i) (filter (one_of is) ps) ≡ filter (in_game i) ps
filter-one_of i is [] h = refl
filter-one_of i is (p ∷ ps) h = elim (ℕ_discrete p.game_id i) [
  | yes e ↦
      let o : one_of is p ≡ true = subst (λ k. any (λ j. k == j) is ≡ true) (sym e) h in
      ground (arith, filter-one_of i is ps h)
  | no apart ↦ ground (arith, filter-one_of i is ps h)
]

-- The rows of one game among those of the batched query are the rows of the single query.
rows_of_batch :
    (i : ℕ) (is : List ℕ) (ps : List GameParticipant)
    → any (λ j. i == j) is ≡ true
    → filter (in_game i) (order_by (λ p. p.game_id) (order_by (λ p. p.id) (filter (one_of is) ps)))
      ≡ order_by (λ p. p.id) (filter (in_game i) ps)
rows_of_batch i is ps h =
    let by_id = order_by (λ (p : GameParticipant). p.id) in
    filter-order_by (λ p. p.game_id) (in_game i) (by_id (filter (one_of is) ps))
    ∙ ap (order_by (λ p. p.game_id))
        (filter-order_by (λ p. p.id) (in_game i) (filter (one_of is) ps))
    ∙ ap (λ qs. order_by (λ (p : GameParticipant). p.game_id) (by_id qs)) (filter-one_of i is ps h)
    ∙ order_by-same (λ p. p.game_id) i (by_id (filter (in_game i) ps))
        (All-order_by (λ p. p.game_id ≡ i) (λ p. p.id) (filter (in_game i) ps) (in_game-All i ps))

unkey : (rows : List GetParticipantsRow) → map (λ r. r.1) (map keyed rows) ≡ map to_participant rows
unkey [] = refl
unkey (r ∷ rows) = ground (arith, unkey rows)

batch_players :
    (is : List ℕ) (w : World) (m : List (ℕ × List Participant))
    → (get_participants_by_game_ids is w).0 ≡ ok m
    → m
      ≡ group [] (
          map keyed (
            join_users w.db.users (
              order_by
                (λ p. p.game_id)
                (order_by (λ p. p.id) (filter (one_of is) w.db.game_participants)))))
unfolding get_participants_by_game_ids Participants.get_participants_by_game_ids statement
batch_players is w m h = ground arith

single_players :
    (id : ℕ) (w : World) (ps : List Participant)
    → (get_participants id w).0 ≡ ok ps
    → ps
      ≡ map to_participant (
          join_users w.db.users
            (order_by (λ p. p.id) (filter (in_game (to_int32 id)) w.db.game_participants)))
unfolding get_participants Participants.get_participants statement
single_players id w ps h = ground arith

-- On the same database and when both succeed, GetParticipantsByGameIDs gives for each requested
-- game the participants that GetParticipants gives, in the same order.
pub batch-eq-single :
    (id : ℕ) (is : List ℕ) (w w' : World) (m : List (ℕ × List Participant)) (ps : List Participant)
    → any (λ j. to_int32 id == j) is ≡ true
    → w'.db ≡ w.db
    → (get_participants_by_game_ids is w).0 ≡ ok m
    → (get_participants id w').0 ≡ ok ps
    → values_at (to_int32 id) m ≡ ps
batch-eq-single id is w w' m ps asked same batch single =
    let i = to_int32 id in
    let us = w.db.users in
    let rows = join_users us (
      order_by (λ p. p.game_id)
        (order_by (λ p. p.id) (filter (one_of is) w.db.game_participants))) in
    ap (values_at i) (batch_players is w m batch)
    ∙ values_at-group i (map keyed rows) []
    ∙ ap (map (λ r. r.1)) (filter-join_users i us _)
    ∙ unkey _
    ∙ ap (λ qs. map to_participant (join_users us qs))
        (rows_of_batch i is w.db.game_participants asked)
    ∙ ap
        (λ d.
          map to_participant
            (join_users d.users (order_by (λ p. p.id) (filter (in_game i) d.game_participants))))
        (sym same)
    ∙ sym (single_players id w' ps single)
