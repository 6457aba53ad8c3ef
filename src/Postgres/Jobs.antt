-- ===== src/Postgres/Jobs.antt =====
-- edc_translation/postgres_backend.py: `PostgresJobRepository`, over one transaction for each method.
-- A method gives back the row that `_job_from_row` makes into its job; `mark_succeeded` sets the
-- bundle of that job besides.
pub mod Creation
pub mod Marks
use edctranslation_public.Prelude.{
  ℕ, String, ◌<>◌, Option, none, some, List, [], ◌∷◌, map, string_eq, if◌then◌else◌,
}
use edctranslation_public.Prelude.Errors.{Result, ok, err, key_error}
use edctranslation_public.Json.{
  Value, null, text, dict, Payload, fields, Runtime, truthy, str, get_or,
}
use edctranslation_public.Jobs.Job.{TranslationJob}
use edctranslation_public.Postgres.Tables.{
  Status, queued, running, succeeded, failed, JobRow, Database,
}
use edctranslation_public.Postgres.Transaction.{Failure, raised, Tx, ◌>>=◌, ◌>>◌, transact}
use edctranslation_public.Postgres.Statements.{
  insert_translation_job, get_translation_job, mark_job_running, mark_job_succeeded,
  mark_job_failed, save_result,
}
use edctranslation_public.Postgres.Queue.{result_reference}

abbrev pub status_text : Status → String
status_text queued = "queued"
status_text running = "running"
status_text succeeded = "succeeded"
status_text failed = "failed"

-- `_job_from_row`; `time_text` is the text that the driver's times have.
unfoldable pub job_from_row : (ℕ → String) → JobRow → TranslationJob
job_from_row time_text r = record {
  job_id = r.job_id;
  status = status_text r.status;
  document_id = r.document_id;
  target_language = r.target_language;
  provider_id = r.provider_id;
  created_at = time_text r.created_at;
  updated_at = time_text r.updated_at;
  completed_at = elim r.completed_at [ none ↦ null | some t ↦ text (time_text t) ];
  translation_bundle = null;
  error = r.error;
  metadata = r.metadata;
}

-- `_execute_one`: the statement is committed before a missing row raises; `key` stands for the
-- parameters that the `KeyError` carries.
unfoldable pub execute_one :
    String → Tx (Option JobRow) → Database → Result Failure JobRow × Database
execute_one key m db =
    let (r, db') = transact m db in
    (
      elim r [
        | err e ↦ err e
        | ok row ↦ elim row [ none ↦ err (raised (key_error key)) | some j ↦ ok j ]
      ],
      db',
    )

module _ (py : Runtime) where
  -- `str(value or default)`
  abbrev pub str_or : Value → String → String
  str_or v default = if truthy v then str py v else default

  unfoldable pub create :
      String → String → String → String → Payload → ℕ → Database → Result Failure JobRow × Database
  create hex document_id target_language provider_id metadata now = transact (
      insert_translation_job (str_or (get_or metadata "job_id" null) ("trjob_" <> hex)) document_id
        target_language provider_id (str_or (get_or metadata "tenant_id" null) "standalone")
        metadata now)

  unfoldable pub mark_succeeded : String → Payload → ℕ → Database → Result Failure JobRow × Database
  mark_succeeded job_id bundle now = execute_one job_id do
    save_result job_id (str_or (get_or bundle "document_id" null) job_id) succeeded
        (dict (fields bundle)) (some (result_reference job_id)) null
        (("source", text "postgres_job_repository") ∷ []) now
    mark_job_succeeded job_id (result_reference job_id) now

unfoldable pub mark_running : String → ℕ → Database → Result Failure JobRow × Database
mark_running job_id now = execute_one job_id (mark_job_running job_id now)

unfoldable pub mark_failed : String → Payload → ℕ → Database → Result Failure JobRow × Database
mark_failed job_id error now = execute_one job_id (mark_job_failed job_id (dict (fields error)) now)

unfoldable pub get : String → Database → Result Failure JobRow × Database
get job_id = execute_one job_id (get_translation_job job_id)
