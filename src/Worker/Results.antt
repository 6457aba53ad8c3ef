-- ===== src/Worker/Results.antt =====
-- edc_translation/worker.py: `TranslationWorkerResult`.
use edctranslation_public.Prelude.{String, Option, none, some, [], ◌∷◌, ◌++◌}
use edctranslation_public.Prelude.Errors.{Result, ok, ◌>>=◌, ◌>>◌, Exception}
use edctranslation_public.Json.{text, dict, Payload, fields, Runtime}
use edctranslation_public.Jobs.WorkItem.{
  TranslationWorkItem, document_id, resolved_job_id, resolved_work_id,
}

pub record TranslationWorkerResult : Type 0 where
  pub job_id : String
  pub work_id : String
  pub document_id : String
  pub status : String
  pub target_language : String
  pub provider_id : String
  pub tenant_id : String
  pub translation_bundle : Option Payload
  pub error : Option Payload
  pub metadata : Payload

abbrev pub translation_bundle_schema : String
translation_bundle_schema = "translation-bundle-v1"

abbrev optional : String → Option Payload → Payload
optional key none = []
optional key (some p) = (key, dict (fields p)) ∷ []

unfoldable pub to_message : TranslationWorkerResult → Payload
to_message r =
    (("job_id", text r.job_id)
      ∷ ("work_id", text r.work_id)
      ∷ ("document_id", text r.document_id)
      ∷ ("status", text r.status)
      ∷ ("target_language", text r.target_language)
      ∷ ("provider_id", text r.provider_id)
      ∷ ("tenant_id", text r.tenant_id)
      ∷ ("metadata", dict (fields r.metadata))
      ∷ [])
    ++ (optional "translation_bundle" r.translation_bundle ++ optional "error" r.error)

-- `check` is `validate_payload`, which raises on a bundle that breaks its schema.
module _ (py : Runtime) where
  unfoldable pub succeeded :
      (Payload → String → Result Exception (Unit {0}))
      → TranslationWorkItem
      → Payload
      → Result Exception TranslationWorkerResult
  succeeded check item bundle = do
    check bundle translation_bundle_schema
    job ← resolved_job_id py item
    work ← resolved_work_id py item
    document ← document_id py item
    ok (record {
      job_id = job;
      work_id = work;
      document_id = document;
      status = "succeeded";
      target_language = item.target_language;
      provider_id = item.provider_id;
      tenant_id = item.tenant_id;
      translation_bundle = some bundle;
      error = none;
      metadata = ("output_contract", text translation_bundle_schema) ∷ [];
    })

  unfoldable pub failed : TranslationWorkItem → Payload → Result Exception TranslationWorkerResult
  failed item error = do
    job ← resolved_job_id py item
    work ← resolved_work_id py item
    document ← document_id py item
    ok (record {
      job_id = job;
      work_id = work;
      document_id = document;
      status = "failed";
      target_language = item.target_language;
      provider_id = item.provider_id;
      tenant_id = item.tenant_id;
      translation_bundle = none;
      error = some error;
      metadata = [];
    })
