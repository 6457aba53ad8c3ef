-- ===== src/Postgres/Invariant.antt =====
-- What holds of the queue and of the dead letters after any sequence of submissions, polls,
-- successes and failures, by any workers that share the limit of attempts.
mod Rules
mod Keeps
mod Writes
mod Burial
pub mod Steps
use edctranslation_public.Prelude.{
  ℕ, ◌≤◌, String, ◌≡◌, ◌≢◌, Bool, true, false, ◌||◌, ◌&&◌, ◌⊎◌, Option, none, some, List, [], ◌∷◌,
  All, ◌==◌, string_eq, nat_eq,
}
use edctranslation_public.Postgres.Tables.{
  Status, running, failed, WorkRow, DeadLetter, Database, work_row,
}
use edctranslation_public.Postgres.Claim.{Unique}

-- The polls of a history: their workers and times.
abbrev pub Polls : Type 0
Polls = List (String × ℕ)

-- Whether a worker polled at a time.
abbrev pub polled_at : String → ℕ → Polls → Bool
polled_at worker at [] = false
polled_at worker at ((w, t) ∷ polls) = (worker == w && at == t) || polled_at worker at polls

-- A row is running exactly while a worker holds it, since a time at which that worker polled.
pub data Lock (polls : Polls) (r : WorkRow) : Type 0 where
  free : r.status ≢ running → r.locked_by ≡ none → r.locked_at ≡ none → Lock polls r
  taken :
      (worker : String) (since : ℕ)
      → r.status ≡ running
      → r.locked_by ≡ some worker
      → r.locked_at ≡ some since
      → polled_at worker since polls ≡ true
      → Lock polls r

-- Whether a work item has a dead letter.
abbrev pub buried : String → List DeadLetter → Bool
buried id [] = false
buried id (l ∷ ls) = l.work_id == id || buried id ls

-- A row that has failed has used up its attempts and has a dead letter.
abbrev pub Buried : ℕ → List DeadLetter → WorkRow → Type 0
Buried limit ls r = r.status ≡ failed → (limit ≤ r.attempts) × (buried r.work_id ls ≡ true)

pub record IsQueue (limit : ℕ) (polls : Polls) (db : Database) : Type 0 where
  pub unique : Unique db.queue
  pub locks : All (Lock polls) db.queue
  pub failures : All (Buried limit db.dead_letters) db.queue
  pub spent : All (λ l. limit ≤ l.attempts) db.dead_letters

-- The same while the failure of `work` waits for its dead letter.
abbrev pub Waiting : ℕ → String → List DeadLetter → WorkRow → Type 0
Waiting limit work ls r =
    r.status ≡ failed → (limit ≤ r.attempts) × ((r.work_id ≡ work) ⊎ (buried r.work_id ls ≡ true))

pub record IsWaiting (limit : ℕ) (polls : Polls) (work : String) (db : Database) : Type 0 where
  pub unique : Unique db.queue
  pub locks : All (Lock polls) db.queue
  pub failures : All (Waiting limit work db.dead_letters) db.queue
  pub row : (r : WorkRow) × (work_row db work ≡ some r) × (r.status ≡ failed)
  pub spent : All (λ l. limit ≤ l.attempts) db.dead_letters
