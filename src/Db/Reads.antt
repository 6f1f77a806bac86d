-- ===== src/Db/Reads.antt =====
-- Calls that leave the database as it is, whatever they return.
use byte_battle.Prelude.{◌≡◌, refl, ◌∙◌, inl, inr, Bool-cases}
use byte_battle.ApiErr.{Code}
use byte_battle.Db.Rows.{Db}
use byte_battle.Db.Exec.{
  World, Action, Result, ok, ◌>>=◌, statement, or_missing, >>=-same_db, Result-cases, >>=-eq-ok,
}

abbrev pub Reads : {A : Type 0} → Action A → Type 0
Reads m = (w : World) → (m w).1.db ≡ w.db

-- A SELECT.
pub statement-Reads :
    {A : Type 0} (f : World → Result (A × Db))
    → ((w : World) (a : A) (d : Db) → f w ≡ ok (a, d) → d ≡ w.db)
    → Reads (statement f)
unfolding statement
statement-Reads f same w = elim (Bool-cases (w.fails w.calls)) [
  | inl down ↦ rw (down) refl
  | inr up ↦ elim (Result-cases (f w)) [
    | inl ((a, d), e) ↦ rw (up, e) (same _ a d e)
    | inr (x, e) ↦ rw (up, e) refl
  ]
]

pub >>=-Reads :
    {A B : Type 0} (m : Action A) (f : A → Action B)
    → Reads m
    → ((a : A) → Reads (f a))
    → Reads (m >>= f)
>>=-Reads m f r rs w = >>=-same_db m f w (λ a v. rs a v) ∙ r w

pub or_missing-Reads : {A : Type 0} (m : Action A) (c : Code) → Reads m → Reads (or_missing m c)
or_missing-Reads m c r w = r w

-- A sequence whose first call only reads succeeds with what both have returned.
pub Reads-ok :
    {A B : Type 0} (m : Action A) (f : A → Action B) (w : World) (b : B)
    → Reads m
    → ((m >>= f) w).0 ≡ ok b
    → (a : A) × (v : World) × ((m w).0 ≡ ok a)
      × (v.db ≡ w.db)
      × ((m >>= f) w ≡ f a v)
      × ((f a v).0 ≡ ok b)
Reads-ok m f w b r h = let (a, e, run) = >>=-eq-ok m f w b h in (a, (m w).1, e, r w, run, cc)
