-- ===== src/Postgres/Ack.antt =====
-- What `PostgresWorkQueue.ack` writes, for a worker that holds the row and for one that does not.
use mathlib.Core.Option
use edctranslation_public.Prelude.{
  ℕ, String, ◌≡◌, refl, Option, none, some, List, [], ◌∷◌, ◌++◌, arith, ◌==◌, string_eq, option_eq,
  if◌then◌else◌, ◌∙◌,
}
use edctranslation_public.Prelude.Errors.{ok}
use edctranslation_public.Json.{Value, null, dict, Payload, fields, Runtime}
use edctranslation_public.Jobs.WorkItem.{
  TranslationWorkItem, document_id, resolved_job_id, resolved_work_id,
}
use edctranslation_public.Worker.Results.{TranslationWorkerResult}
use edctranslation_public.Postgres.Tables.{
  succeeded, JobRow, WorkRow, ResultRow, Database, find, update_where, has_result, work_row,
  job_row, result_row,
}
use edctranslation_public.Postgres.Transaction.{transact, ◌>>=◌, ◌>>◌}
use edctranslation_public.Postgres.Statements.{
  held, mark_work_succeeded, mark_job_succeeded, save_result,
}
use edctranslation_public.Postgres.Rows.{find-update_where, find-update_key, find-append}
use edctranslation_public.Postgres.Queue.{PostgresQueueSettings, ack, ack_writes, result_reference}

-- What a stored result says of its translation.
abbrev pub Says : Value → ResultRow → Type 0
Says bundle q = (q.status ≡ succeeded) × (q.translation_bundle ≡ bundle) × (q.error ≡ null)

module _ (job document : String) (bundle : Value) (reference : Option String) (metadata : Payload)
    (now : ℕ) where
  abbrev new_result : ResultRow
  new_result = record {
    job_id = job;
    document_id = document;
    status = succeeded;
    translation_bundle = bundle;
    result_ref = reference;
    error = null;
    metadata = metadata;
    created_at = now;
    updated_at = now;
  }

  abbrev over : ResultRow → ResultRow
  over r = record r {
    document_id = document;
    status = succeeded;
    translation_bundle = bundle;
    result_ref = reference;
    error = null;
    metadata = metadata;
    updated_at = now;
  }

  -- The upsert keeps one result for the job, which says what was written.
  abbrev upserted : Database → List ResultRow
  upserted db = elim (result_row db job) [
    | none ↦ db.results ++ new_result ∷ []
    | some old ↦ update_where (has_result job) over db.results
  ]

  save_result_lem :
      (db : Database) (j : JobRow)
      → job_row db job ≡ some j
      → save_result job document succeeded bundle reference null metadata now db
        ≡ ok (tt, record db { results = upserted db })
  unfolding save_result
  save_result_lem db j exists = ground (arith, exists)

  find-upserted :
      (db : Database)
      → (q : ResultRow) × (find (has_result job) (upserted db) ≡ some q) × Says bundle q
  find-upserted db = by_old (result_row db job) refl
    where
      by_old :
          (o : Option ResultRow)
          → result_row db job ≡ o
          → (q : ResultRow) × (find (has_result job) (elim o [
            | none ↦ db.results ++ new_result ∷ []
            | some old ↦ update_where (has_result job) over db.results
          ])
              ≡ some q)
            × Says bundle q
      by_old none absent = (
        new_result,
        find-append (has_result job) db.results new_result ∙ ground (arith, absent),
        (refl, refl, refl),
      )
      by_old (some old) stored = (
        over old,
        find-update_key (λ (q : ResultRow). q.job_id) over (λ q. refl) job job db.results
            ∙ ground (arith, stored),
        (refl, refl, refl),
      )

module _ (py : Runtime) (settings : PostgresQueueSettings) (item : TranslationWorkItem)
    (job work document : String) (own_job : resolved_job_id py item ≡ ok job)
    (own_work : resolved_work_id py item ≡ ok work)
    (own_document : document_id py item ≡ ok document) where
  open settings use {worker_id}

  -- The row of work after its success.
  abbrev pub done_row : ℕ → WorkRow → WorkRow
  done_row now r = record r {
    status = succeeded;
    locked_by = none;
    locked_at = none;
    updated_at = now;
  }

  abbrev pub done_job : ℕ → JobRow → JobRow
  done_job now j = record j {
    status = succeeded;
    updated_at = now;
    completed_at = some now;
    error = null;
    result_ref = some (result_reference job);
  }

  -- For a result with a bundle and a job that exists, `ack` stores a result with the bundle, ends the job as succeeded, and
  -- frees the row of work as succeeded if this worker holds it. A row that the worker does not hold
  -- keeps its state, though the job and the result are written all the same.
  pub ack-outcome :
      (result : TranslationWorkerResult) (bundle : Payload) (now : ℕ) (db : Database) (j : JobRow)
      → result.translation_bundle ≡ some bundle
      → job_row db job ≡ some j
      → let (res, after) = ack py settings item result now db in
        (res ≡ ok tt)
        × ((q : ResultRow) × (result_row after job ≡ some q) × Says (dict (fields bundle)) q)
        × ((id : String)
            → job_row after id ≡ (if id == job then some (done_job now j) else job_row db id))
        × ((id : String)
            → work_row after id
              ≡ Option.map
                  (λ r. if held work worker_id r then done_row now r else r)
                  (work_row db id))
        × (after.dead_letters ≡ db.dead_letters)
  unfolding ack ack_writes transact mark_job_succeeded mark_work_succeeded
  ack-outcome result bundle now db j has exists =
      let saved =
        save_result_lem job document (dict (fields bundle)) (some (result_reference job))
          result.metadata now db j exists in
      rw (has, ack, transact, own_job, own_document, own_work, ack_writes, saved, ◌>>=◌, ◌>>◌)
        (
          refl,
          find-upserted job document (dict (fields bundle)) (some (result_reference job))
              result.metadata now db,
          λ id.
              find-update_key (λ (q : JobRow). q.job_id) (done_job now) (λ q. refl) job id db.jobs
              ∙ ground (arith, exists),
          λ id.
              find-update_where (λ (q : WorkRow). q.work_id) (held work worker_id) (done_row now)
                (λ q. refl) id db.queue,
          refl,
        )
