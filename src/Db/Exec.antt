-- ===== src/Db/Exec.antt =====
-- Calls of the database: state, errors and transactions. Each statement is one round trip, and
-- the environment decides which round trips fail; a failed one changes nothing.
use byte_battle.Prelude.{
  ℕ, suc, ◌≡◌, refl, ◌⊎◌, inl, inr, arith, Bool, Option, none, some, if◌then◌else◌, ◌%◌,
}
use byte_battle.ApiErr.{Code}
use byte_battle.Db.Rows.{Db}

-- `app` is an *apierr.AppError. `no_rows` is pgx.ErrNoRows, `constraint` a violated constraint or
-- an exhausted sequence, `db_failure` any other error of pgx, `no_randomness` an error of
-- crypto/rand, `no_problem_files` an error of the problems' store, `email_taken` and
-- `username_taken` a violation of users_email_key and of users_username_key, and
-- `entrance_failure` any other error of the entrance service, `no_slug` that no slug is free, and
-- `invalid_name` service.ErrInvalidName.
pub data Error : Type 0 where
  app : Code → Error
  no_rows : Error
  constraint : Error
  db_failure : Error
  game_already_finished : Error
  no_randomness : Error
  no_problem_files : Error
  email_taken username_taken : Error
  entrance_failure : Error
  no_slug : Error
  invalid_name : Error

pub data Result (A : Type 0) : Type 0 where
  ok : A → Result A
  err : Error → Result A

-- `now` is the time at which the request runs; `fails n` says that round trip n fails, and
-- `uuids n` is what gen_random_uuid() gives in it.
pub record World : Type 0 where
  pub db : Db
  pub now : ℕ
  pub calls : ℕ
  pub fails : ℕ → Bool
  pub uuids : ℕ → ℕ

abbrev pub Action : Type 0 → Type 0
Action A = World → Result A × World

abbrev pub pure : {A : Type 0} → A → Action A
pure a w = (ok a, w)

abbrev pub raise : {A : Type 0} → Error → Action A
raise e w = (err e, w)

infixl 5 ◌>>=◌ ◌>>◌
abbrev pub ◌>>=◌ : {A B : Type 0} → Action A → (A → Action B) → Action B
◌>>=◌ m f w = let (r, w') = m w in elim r [ ok a ↦ f a w' | err e ↦ (err e, w') ]

abbrev pub ◌>>◌ : {A B : Type 0} → Action A → Action B → Action B
m >> k = m >>= λ _. k

abbrev pub raise_if : Bool → Code → Action (Unit {0})
raise_if c code w = (if c then err (app code) else ok tt, w)

-- The database after a round trip.
abbrev settle : {A : Type 0} → World → Result (A × Db) → Result A × World
settle w (ok (a, d)) = (ok a, record w { db = d })
settle w (err e) = (err e, w)

abbrev pub next_call : World → World
next_call w = record w { calls = suc w.calls }

-- One statement.
unfoldable pub statement : {A : Type 0} → (World → Result (A × Db)) → Action A
statement f w =
    if w.fails w.calls then (err db_failure, next_call w) else settle (next_call w) (f w)

-- A statement that only reads.
abbrev pub query : {A : Type 0} → (Db → Result A) → Action A
query f = statement (λ w. elim (f w.db) [ ok a ↦ ok (a, w.db) | err e ↦ err e ])

-- A `:one` statement without a row gives pgx.ErrNoRows.
abbrev pub one : {A : Type 0} → Option A → Result A
one none = err no_rows
one (some a) = ok a

-- COMMIT. A commit that fails leaves nothing behind.
abbrev commit : {A : Type 0} → Db → A → Action A
commit before a w =
    if w.fails w.calls
    then (err db_failure, record w { calls = suc w.calls; db = before })
    else (ok a, next_call w)

abbrev finish : {A : Type 0} → Db → Result A × World → Result A × World
finish before (ok a, w) = commit before a w
finish before (err e, w) = (err e, record w { db = before })

-- `pool.Begin`, the statements, `tx.Commit`; on an error the deferred `tx.Rollback`.
unfoldable pub transaction : {A : Type 0} → Action A → Action A
transaction m w =
    if w.fails w.calls then (err db_failure, next_call w) else finish w.db (m (next_call w))

abbrev recode : {A : Type 0} → Code → Result A → Result A
recode c (ok a) = ok a
recode c (err no_rows) = err (app c)
recode c (err e) = err e

-- `if errors.Is(err, pgx.ErrNoRows) { return apierr.New(c) }; if err != nil { return err }`
abbrev pub or_missing : {A : Type 0} → Action A → Code → Action A
or_missing m c w = let (r, w') = m w in (recode c r, w')

-- Go's int32(x) on the bit pattern of an int.
abbrev pub to_int32 : ℕ → ℕ
to_int32 x = x % 4294967296

pub Result-cases :
    {A : Type 0} (r : Result A) → ((a : A) × (r ≡ ok a)) ⊎ ((e : Error) × (r ≡ err e))
Result-cases (ok a) = inl (a, refl)
Result-cases (err e) = inr (e, refl)

-- A transaction that returns an error leaves the database as it was.
pub transaction-err :
    {A : Type 0} (m : Action A) (w : World) (e : Error)
    → (transaction m w).0 ≡ err e
    → (transaction m w).1.db ≡ w.db
unfolding transaction
transaction-err m w e h = ground arith

-- Inversion of a sequence that succeeds.
pub >>=-eq-ok :
    {A B : Type 0} (m : Action A) (f : A → Action B) (w : World) (b : B)
    → ((m >>= f) w).0 ≡ ok b
    → (a : A) × ((m w).0 ≡ ok a) × ((m >>= f) w ≡ f a (m w).1)
>>=-eq-ok m f w b h = elim (Result-cases (m w).0) [
  | inl (a, e) ↦ (a, e, ground arith)
  | inr (x, e) ↦ absurd (ground arith)
]

-- A sequence after its first call, which has succeeded or failed.
pub >>=-after_ok :
    {A B : Type 0} (m : Action A) (f : A → Action B) (w : World) (a : A)
    → (m w).0 ≡ ok a
    → (m >>= f) w ≡ f a (m w).1
>>=-after_ok m f w a e = ground arith

pub >>=-after_err :
    {A B : Type 0} (m : Action A) (f : A → Action B) (w : World) (x : Error)
    → (m w).0 ≡ err x
    → (m >>= f) w ≡ (err x, (m w).1)
>>=-after_err m f w x e = ground arith

-- A transaction that succeeds has run its statements and kept what they did.
pub transaction-ok :
    {A : Type 0} (m : Action A) (w : World) (a : A)
    → (transaction m w).0 ≡ ok a
    → ((m (next_call w)).0 ≡ ok a) × ((transaction m w).1.db ≡ (m (next_call w)).1.db)
unfolding transaction
transaction-ok m w a h = ground arith

-- What follows a call and leaves the database alone leaves what the call has made of it.
pub >>=-same_db :
    {A B : Type 0} (m : Action A) (f : A → Action B) (w : World)
    → ((a : A) (v : World) → (f a v).1.db ≡ v.db)
    → ((m >>= f) w).1.db ≡ (m w).1.db
>>=-same_db m f w same = elim (Result-cases (m w).0) [
  | inl (a, e) ↦ ground (arith, same a (m w).1)
  | inr (x, e) ↦ ground arith
]
