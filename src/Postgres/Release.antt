-- ===== src/Postgres/Release.antt =====
-- What `PostgresWorkQueue.nack` and `ack` do to the queue, the jobs, the results and the dead
-- letters.
use edctranslation_public.Prelude.{
  ℕ, ◌+◌, ◌≤◌, ◌<◌, String, ◌≡◌, refl, ◌≢◌, true, false, none, some, List, [], ◌∷◌, ◌++◌, arith,
  leb, ◌==◌, string_eq, option_eq, if◌then◌else◌, ◌∙◌,
}
use edctranslation_public.Prelude.Errors.{ok}
use edctranslation_public.Json.{Value, Runtime}
use edctranslation_public.Jobs.WorkItem.{TranslationWorkItem, resolved_job_id, resolved_work_id}
use edctranslation_public.Worker.Results.{TranslationWorkerResult}
use edctranslation_public.Postgres.Tables.{
  queued, failed, JobRow, WorkRow, DeadLetter, Database, find, update_where, has_work, has_job,
  work_row, job_row,
}
use edctranslation_public.Postgres.Transaction.{transact, ◌>>=◌, ◌>>◌}
use edctranslation_public.Postgres.Statements.{
  seconds, held, released, mark_work_failed, insert_dead_letter, mark_job_failed,
}
use edctranslation_public.Postgres.Claim.{Unique}
use edctranslation_public.Postgres.Rows.{find-update_where, find-update_key, find_holds}
use edctranslation_public.Postgres.Held.{find-held, find-not_held, update-none}
use edctranslation_public.Postgres.Queue.{
  PostgresQueueSettings, nack, nack_writes, bury, error_or_empty,
}

insert_dead_letter_lem :
    (work worker : String) (error : Value) (now : ℕ) (db : Database) (r : WorkRow) (j : JobRow)
    → work_row db work ≡ some r
    → job_row db r.job_id ≡ some j
    → insert_dead_letter work error worker now db
      ≡ ok (
        tt,
        record db {
          dead_letters =
              db.dead_letters
              ++ record {
                work_id = r.work_id;
                job_id = r.job_id;
                payload = r.payload;
                error = error;
                attempts = r.attempts;
                worker_id = worker;
                created_at = now;
              }
                ∷ [];
        },
      )
unfolding insert_dead_letter
insert_dead_letter_lem work worker error now db r j h exists =
    rw (h, insert_dead_letter, exists) refl

module _ (py : Runtime) (settings : PostgresQueueSettings) (item : TranslationWorkItem)
    (work : String) (named : resolved_work_id py item ≡ ok work) where
  open settings use {worker_id, max_attempts, retry_delay_seconds}

  -- Where no work id stands twice, `nack` for a row that is there and that its worker does not hold
  -- succeeds and changes nothing.
  pub nack-not_holder :
      (result : TranslationWorkerResult) (now : ℕ) (db : Database) (r : WorkRow)
      → Unique db.queue
      → work_row db work ≡ some r
      → r.locked_by ≢ some worker_id
      → nack py settings item result now db ≡ (ok tt, db)
  unfolding nack nack_writes mark_work_failed transact
  nack-not_holder result now db r u h l =
      let absent = find-not_held work worker_id db.queue r u h l in
      rw (
        named,
        nack,
        transact,
        nack_writes,
        mark_work_failed,
        absent,
        update-none work worker_id _ db.queue absent,
      )

  abbrev freed : TranslationWorkerResult → ℕ → WorkRow → WorkRow
  freed result = λ now. released max_attempts retry_delay_seconds (error_or_empty result.error) now

  abbrev with_freed : TranslationWorkerResult → ℕ → Database → Database
  with_freed result now db = record db {
    queue = update_where (held work worker_id) (freed result now) db.queue;
  }

  -- The held row is released, and no other.
  row-freed :
      (result : TranslationWorkerResult) (now : ℕ) (db : Database) (r : WorkRow)
      → work_row db work ≡ some r
      → r.locked_by ≡ some worker_id
      → work_row (with_freed result now db) work ≡ some (freed result now r)
  row-freed result now db r h l =
      find-update_where (λ (q : WorkRow). q.work_id) (held work worker_id) (freed result now)
        (λ q. refl) work db.queue
      ∙ rw h (ground (arith, find_holds (has_work work) db.queue r h))

  row-not_freed :
      (result : TranslationWorkerResult) (now : ℕ) (db : Database) (id : String)
      → id ≢ work
      → work_row (with_freed result now db) id ≡ work_row db id
  row-not_freed result now db id other = not_held db.queue
    where
      not_held :
          (rs : List WorkRow)
          → find (has_work id) (update_where (held work worker_id) (freed result now) rs)
            ≡ find (has_work id) rs
      not_held [] = refl
      not_held (q ∷ rs) = ground (arith, not_held rs)

  -- Every row after the release.
  rows_freed :
      (result : TranslationWorkerResult) (now : ℕ) (db : Database) (r q : WorkRow)
      → work_row db work ≡ some r
      → r.locked_by ≡ some worker_id
      → freed result now r ≡ q
      → (id : String)
      → work_row (with_freed result now db) id ≡ (if id == work then some q else work_row db id)
  rows_freed result now db r q h l same id = elim (string_eq.dec id work) [
    | yes e ↦ rw (e, row-freed result now db r h l, same) (ground arith)
    | no n ↦ rw (row-not_freed result now db id n) (ground arith)
  ]

  -- Where its worker holds the row, before the last attempt `nack` puts the row back: queued, unlocked, due after the delay, with
  -- the error; every other row, and the jobs, results and dead letters, are unchanged.
  pub nack-requeues :
      (result : TranslationWorkerResult) (now : ℕ) (db : Database) (r : WorkRow)
      → work_row db work ≡ some r
      → r.locked_by ≡ some worker_id
      → r.attempts < max_attempts
      → let (res, after) = nack py settings item result now db in
        (res ≡ ok tt)
        × ((id : String)
            → work_row after id ≡ (
                if id == work
                then some (record r {
                  status = queued;
                  available_at = now + seconds retry_delay_seconds;
                  last_error = error_or_empty result.error;
                  locked_by = none;
                  locked_at = none;
                  updated_at = now;
                })
                else work_row db id))
        × (after ≡ record db { queue = after.queue })
  unfolding nack nack_writes mark_work_failed transact
  nack-requeues result now db r h l below =
      let found = find-held work worker_id db.queue r h l in
      let again : leb max_attempts r.attempts ≡ false = ground arith in
      let run : nack py settings item result now db ≡ (ok tt, with_freed result now db) =
        rw (named, nack, transact, nack_writes, mark_work_failed, found, again) refl in
      rw run (refl, rows_freed result now db r _ h l (rw again refl), refl)

  -- The dead letter of a row, and a job that has failed.
  abbrev pub letter : TranslationWorkerResult → ℕ → WorkRow → DeadLetter
  letter result now r = record {
    work_id = r.work_id;
    job_id = r.job_id;
    payload = r.payload;
    error = error_or_empty result.error;
    attempts = r.attempts;
    worker_id = worker_id;
    created_at = now;
  }

  abbrev pub ended : TranslationWorkerResult → ℕ → JobRow → JobRow
  ended result now j = record j {
    status = failed;
    updated_at = now;
    completed_at = some now;
    error = error_or_empty result.error;
  }

  abbrev with_buried : TranslationWorkerResult → ℕ → Database → WorkRow → Database
  with_buried result now db r = record (with_freed result now db) {
    dead_letters = db.dead_letters ++ letter result now r ∷ [];
    jobs = update_where (has_job r.job_id) (ended result now) db.jobs;
  }

  bury_lem :
      (result : TranslationWorkerResult) (now : ℕ) (db : Database) (r : WorkRow) (j : JobRow)
      → work_row db work ≡ some r
      → r.locked_by ≡ some worker_id
      → resolved_job_id py item ≡ ok r.job_id
      → job_row db r.job_id ≡ some j
      → bury py settings item work (error_or_empty result.error) now (with_freed result now db)
        ≡ ok (tt, with_buried result now db r)
  unfolding bury mark_job_failed
  bury_lem result now db r j h l own exists =
      let written =
        insert_dead_letter_lem work worker_id (error_or_empty result.error) now
          (with_freed result now db) (freed result now r) j (row-freed result now db r h l)
          exists in
      rw (written, own, bury, ◌>>=◌, ◌>>◌) refl

  -- Where its worker holds the row, and the item's job is the job of the row and is there, at the
  -- last attempt `nack` ends the work: the row is failed and unlocked, a dead letter
  -- with its payload and attempts is added, the job is failed with the error, and every other row
  -- of work, every other job and all results are unchanged.
  pub nack-buries :
      (result : TranslationWorkerResult) (now : ℕ) (db : Database) (r : WorkRow) (j : JobRow)
      → work_row db work ≡ some r
      → r.locked_by ≡ some worker_id
      → max_attempts ≤ r.attempts
      → resolved_job_id py item ≡ ok r.job_id
      → job_row db r.job_id ≡ some j
      → let (res, after) = nack py settings item result now db in
        let error = error_or_empty result.error in
        (res ≡ ok tt)
        × ((id : String)
            → work_row after id ≡ (
                if id == work
                then some (record r {
                  status = failed;
                  available_at = now;
                  last_error = error;
                  locked_by = none;
                  locked_at = none;
                  updated_at = now;
                })
                else work_row db id))
        × (after.dead_letters ≡ db.dead_letters ++ letter result now r ∷ [])
        × ((id : String)
            → job_row after id
              ≡ (if id == r.job_id then some (ended result now j) else job_row db id))
        × (after.results ≡ db.results)
  unfolding nack nack_writes mark_work_failed transact
  nack-buries result now db r j h l last own exists =
      let found = find-held work worker_id db.queue r h l in
      let done : leb max_attempts r.attempts ≡ true = ground arith in
      let run : nack py settings item result now db ≡ (ok tt, with_buried result now db r) =
        rw (named, nack, transact, nack_writes, mark_work_failed, found, done)
          (rw (bury_lem result now db r j h l own exists) refl) in
      rw run (
        refl,
        rows_freed result now db r _ h l (rw done refl),
        refl,
        λ id.
            find-update_key (λ (q : JobRow). q.job_id) (ended result now) (λ q. refl) r.job_id id
              db.jobs
            ∙ ground (arith, exists),
        refl,
      )
