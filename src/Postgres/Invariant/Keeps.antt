-- ===== src/Postgres/Invariant/Keeps.antt =====
-- Properties of the database that a transaction's statements keep, whichever of them fails.
use edctranslation_public.Prelude.Errors.{Result, ok, err, Exception}
use edctranslation_public.Postgres.Tables.{Database}
use edctranslation_public.Postgres.Transaction.{Failure, Tx, ◌>>=◌, compute, transact}

-- What a transaction's statements may rely on, and what they leave where they go through.
abbrev pub Leaves : {A : Type 0} → (A → Database → Type 0) → Result Failure (A × Database) → Type 0
Leaves Q (err e) = Unit
Leaves Q (ok (a, db)) = Q a db

abbrev pub Keeps : {A : Type 0} → (Database → Type 0) → Tx A → (A → Database → Type 0) → Type 0
Keeps P m Q = (db : Database) → P db → Leaves Q (m db)

pub bind-Keeps :
    {A B : Type 0} (P : Database → Type 0) (m : Tx A) (Q : A → Database → Type 0) (f : A → Tx B)
    (R : B → Database → Type 0)
    → Keeps P m Q
    → ((a : A) → Keeps (Q a) (f a) R)
    → Keeps P (m >>= f) R
bind-Keeps {A = A} {B = B} P m Q f R hm hf db p = by_run (m db) (hm db p)
  where
    by_run :
        (r : Result Failure (A × Database))
        → Leaves Q r
        → Leaves R (elim r as (λ x. Result Failure (B × Database)) [
          | err e ↦ err e
          | ok (a, db') ↦ f a db'
        ])
    by_run (err e) h = tt
    by_run (ok (a, db')) h = hf a db' h

pub compute-Keeps :
    {A : Type 0} (P : Database → Type 0) (r : Result Exception A) → Keeps P (compute r) (λ a. P)
compute-Keeps P (ok a) db p = p
compute-Keeps P (err e) db p = tt

pub transact-keeps :
    {A : Type 0} (P : Database → Type 0) (m : Tx A) (db : Database)
    → Keeps P m (λ a. P)
    → P db
    → P (transact m db).1
unfolding transact
transact-keeps {A = A} P m db h p = by_run (m db) (h db p)
  where
    by_run :
        (r : Result Failure (A × Database))
        → Leaves (λ a. P) r
        → P
            (elim r as (λ x. Result Failure A × Database) [
              | err e ↦ (err e, db)
              | ok (a, db') ↦ (ok a, db')
            ]).1
    by_run (err e) k = p
    by_run (ok (a, db')) k = k
