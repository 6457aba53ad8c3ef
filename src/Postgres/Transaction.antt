-- ===== src/Postgres/Transaction.antt =====
-- The shape that every adapter method of edc_translation/postgres_backend.py has: execute inside
-- `try`, roll back and raise on an exception, commit otherwise.
use edctranslation_public.Prelude.Errors.{Result, ok, err, Exception}
use edctranslation_public.Postgres.Tables.{Database}

-- The constraints of the schema that the statements can break.
pub data DbError : Type 0 where
  unique_violation : DbError
  foreign_key_violation : DbError

-- What ends a method early: the driver's error, or an exception of the program's own.
pub data Failure : Type 0 where
  database : DbError → Failure
  raised : Exception → Failure

-- A sequence of statements in an open transaction.
abbrev pub Tx : Type 0 → Type 0
Tx A = Database → Result Failure (A × Database)

infixl 5 ◌>>=◌ ◌>>◌
abbrev pub ◌>>=◌ : {A B : Type 0} → Tx A → (A → Tx B) → Tx B
◌>>=◌ m f db = elim (m db) [ err e ↦ err e | ok (a, db') ↦ f a db' ]

abbrev pub ◌>>◌ : {A B : Type 0} → Tx A → Tx B → Tx B
m >> k = m >>= λ _. k

abbrev pub pure : {A : Type 0} → A → Tx A
pure a db = ok (a, db)

abbrev pub raising : {A : Type 0} → Result Exception A → Result Failure A
raising (ok a) = ok a
raising (err e) = err (raised e)

-- A computation of the program between two statements.
abbrev pub compute : {A : Type 0} → Result Exception A → Tx A
compute r db = elim r [ err e ↦ err (raised e) | ok a ↦ ok (a, db) ]

-- `commit` keeps what the statements wrote; `rollback` leaves the database as it was found.
unfoldable pub transact : {A : Type 0} → Tx A → Database → Result Failure A × Database
transact m db = elim (m db) [ err e ↦ (err e, db) | ok (a, db') ↦ (ok a, db') ]
