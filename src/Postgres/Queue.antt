-- ===== src/Postgres/Queue.antt =====
-- edc_translation/postgres_backend.py: `PostgresQueueSettings`, `PostgresWorkQueue` and
-- `PostgresSubmitWorkQueue`. `now` is the time of the method's transaction, and `busy` tells the
-- rows that other open transactions hold locked.
use edctranslation_public.Prelude.{
  ℕ, String, ◌<>◌, Bool, Option, none, some, [], string_eq, if◌then◌else◌,
}
use edctranslation_public.Prelude.Dict
use edctranslation_public.Prelude.Errors.{Result, ok, err, Exception, value_error}
use edctranslation_public.Json.{
  ℤ, pos, Value, null, whole, text, dict, Payload, fields, Runtime, truthy, int_of, get_or,
}
use edctranslation_public.Jobs.WorkItem.{
  TranslationWorkItem, document_id, resolved_job_id, resolved_work_id, to_message, from_message,
}
use edctranslation_public.Worker.Results.{TranslationWorkerResult}
use edctranslation_public.Postgres.Tables.{succeeded, failed, JobRow, WorkRow, Database}
use edctranslation_public.Postgres.Transaction.{
  Failure, raised, Tx, ◌>>=◌, ◌>>◌, pure, compute, transact,
}
use edctranslation_public.Postgres.Statements.{
  insert_translation_job, enqueue_work_item, claim_work, mark_work_succeeded, mark_work_failed,
  mark_job_succeeded, mark_job_failed, save_result, insert_dead_letter,
}

pub record PostgresQueueSettings : Type 0 where
  pub worker_id : String
  pub max_attempts : ℕ
  pub retry_delay_seconds : ℕ
  pub visibility_timeout_seconds : ℕ

abbrev pub no_bundle : String
no_bundle = "successful worker result must include translation_bundle"

abbrev pub result_reference : String → String
result_reference job = "translation_results:" <> job

-- `result.error or {}`
abbrev pub error_or_empty : Option Payload → Value
error_or_empty none = dict (fields [])
error_or_empty (some e) = dict (fields e)

-- `metadata.setdefault(key, value)`
abbrev pub set_default : String → Value → Payload → Payload
set_default key v d = elim (Dict.lookup key d) [ none ↦ Dict.insert key v d | some w ↦ d ]

module _ (py : Runtime) where
  -- `int(metadata.get("priority", 0) or 0)`
  abbrev pub priority_of : Payload → Result Exception ℤ
  priority_of metadata =
      let stated = get_or metadata "priority" (whole (pos 0)) in
      if truthy stated then int_of py stated else ok (pos 0)

  unfoldable pub submit_metadata : TranslationWorkItem → String → Payload
  submit_metadata item job =
      set_default "tenant_id" (text item.tenant_id) (set_default "job_id" (text job) item.metadata)

  -- `PostgresSubmitWorkQueue.submit`, up to the row that it makes into a job
  unfoldable pub submit : TranslationWorkItem → ℕ → Database → Result Failure JobRow × Database
  submit item now = transact do
    job ← compute (resolved_job_id py item)
    document ← compute (document_id py item)
    row ←
        insert_translation_job job document item.target_language item.provider_id item.tenant_id
          (submit_metadata item job) now
    work ← compute (resolved_work_id py item)
    priority ← compute (priority_of (submit_metadata item job))
    payload ← compute (to_message py item)
    enqueue_work_item work job priority payload now
    pure row

  module _ (settings : PostgresQueueSettings) where
    -- The transaction of `poll`.
    unfoldable pub claim :
        (String → Bool) → ℕ → Database → Result Failure (Option WorkRow) × Database
    claim busy now =
        transact (claim_work busy settings.worker_id settings.visibility_timeout_seconds now)

    -- The row is committed as claimed before its payload is read.
    unfoldable pub poll :
        (String → Bool) → ℕ → Database → Result Failure (Option TranslationWorkItem) × Database
    poll busy now db =
        let (r, db') = claim busy now db in
        (
          elim r [
            | err e ↦ err e
            | ok row ↦ elim row [
              | none ↦ ok none
              | some w ↦ elim (from_message py w.payload) [
                | err e ↦ err (raised e)
                | ok item ↦ ok (some item)
              ]
            ]
          ],
          db',
        )

    -- The three writes of `ack`.
    unfoldable pub ack_writes :
        String → String → String → Payload → TranslationWorkerResult → ℕ → Tx (Unit {0})
    ack_writes job work document bundle result now = do
      save_result job document succeeded (dict (fields bundle)) (some (result_reference job)) null
          result.metadata now
      mark_job_succeeded job (result_reference job) now
      mark_work_succeeded work settings.worker_id now

    unfoldable pub ack :
        TranslationWorkItem
        → TranslationWorkerResult
        → ℕ
        → Database
        → Result Failure (Unit {0}) × Database
    ack item result now db = elim result.translation_bundle [
      | none ↦ (err (raised (value_error no_bundle)), db)
      | some bundle ↦
          transact
            (do
              job ← compute (resolved_job_id py item)
              document ← compute (document_id py item)
              work ← compute (resolved_work_id py item)
              ack_writes job work document bundle result now)
            db
    ]

    -- What `nack` does once the row is released for good.
    unfoldable pub bury : TranslationWorkItem → String → Value → ℕ → Tx (Unit {0})
    bury item work error now = do
      insert_dead_letter work error settings.worker_id now
      job ← compute (resolved_job_id py item)
      mark_job_failed job error now
      pure tt

    unfoldable pub nack_writes : TranslationWorkItem → String → Value → ℕ → Tx (Unit {0})
    unfolding bury
    nack_writes item work error now = do
      status ←
          mark_work_failed work settings.worker_id settings.max_attempts
            settings.retry_delay_seconds error now
      elim status [
        | none ↦ pure tt
        | some st ↦ elim st [ failed ↦ bury item work error now | _ ↦ pure tt ]
      ]

    unfoldable pub nack :
        TranslationWorkItem
        → TranslationWorkerResult
        → ℕ
        → Database
        → Result Failure (Unit {0}) × Database
    nack item result now = transact do
      work ← compute (resolved_work_id py item)
      nack_writes item work (error_or_empty result.error) now
