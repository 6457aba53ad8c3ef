-- ===== src/Jobs/Job.antt =====
-- edc_translation/jobs.py: `TranslationJob`, its dict and the changes that `_update` makes to it.
use edctranslation_public.Prelude.{
  String, ◌≡◌, Bool, true, false, List, [], ◌∷◌, string_eq, not, if◌then◌else◌,
}
use edctranslation_public.Prelude.Dict
use edctranslation_public.Prelude.Errors.{Result, ok, ◌>>=◌, Exception}
use edctranslation_public.Json.{
  Value, null, flag, text, dict, Payload, fields, entries-fields, Runtime, str, dict_of, get_or,
  index,
}

-- `null` stands for `None` in the three optional fields.
pub record TranslationJob : Type 0 where
  pub job_id : String
  pub status : String
  pub document_id : String
  pub target_language : String
  pub provider_id : String
  pub created_at : String
  pub updated_at : String
  pub completed_at : Value
  pub translation_bundle : Value
  pub error : Value
  pub metadata : Payload

unfoldable pub to_dict : TranslationJob → Payload
to_dict job =
    ("job_id", text job.job_id)
    ∷ ("status", text job.status)
    ∷ ("document_id", text job.document_id)
    ∷ ("target_language", text job.target_language)
    ∷ ("provider_id", text job.provider_id)
    ∷ ("created_at", text job.created_at)
    ∷ ("updated_at", text job.updated_at)
    ∷ ("completed_at", job.completed_at)
    ∷ ("translation_bundle", job.translation_bundle)
    ∷ ("error", job.error)
    ∷ ("metadata", dict (fields job.metadata))
    ∷ []

unfoldable pub from_dict : Runtime → Payload → Result Exception TranslationJob
from_dict py payload = do
  job_id ← index payload "job_id"
  status ← index payload "status"
  document_id ← index payload "document_id"
  target_language ← index payload "target_language"
  provider_id ← index payload "provider_id"
  created_at ← index payload "created_at"
  updated_at ← index payload "updated_at"
  metadata ← dict_of py (get_or payload "metadata" (dict (fields [])))
  ok (record {
    job_id = str py job_id;
    status = str py status;
    document_id = str py document_id;
    target_language = str py target_language;
    provider_id = str py provider_id;
    created_at = str py created_at;
    updated_at = str py updated_at;
    completed_at = get_or payload "completed_at" null;
    translation_bundle = get_or payload "translation_bundle" null;
    error = get_or payload "error" null;
    metadata = metadata;
  })

-- Reading back what `to_dict` wrote gives the job itself.
pub from_dict-to_dict : (py : Runtime) (job : TranslationJob) → from_dict py (to_dict job) ≡ ok job
unfolding from_dict to_dict dict_of str Dict.lookup string_eq
from_dict-to_dict py job = rw entries-fields

abbrev pub is_none : Value → Bool
is_none null = true
is_none _ = false

-- The entries that `status_payload` always has.
abbrev pub status_fields : TranslationJob → Payload
status_fields job =
    ("job_id", text job.job_id)
    ∷ ("status", text job.status)
    ∷ ("document_id", text job.document_id)
    ∷ ("target_language", text job.target_language)
    ∷ ("provider_id", text job.provider_id)
    ∷ ("created_at", text job.created_at)
    ∷ ("updated_at", text job.updated_at)
    ∷ ("completed_at", job.completed_at)
    ∷ ("metadata", dict (fields job.metadata))
    ∷ []

unfoldable pub status_payload : TranslationJob → Payload
status_payload job =
    Dict.insert "translation_bundle_available" (flag (not (is_none job.translation_bundle))) (
      if is_none job.error
      then status_fields job
      else Dict.insert "error" job.error (status_fields job))

-- A keyword argument of `_update`.
pub data Change : Type 0 where
  set_status : String → Change
  set_updated_at : String → Change
  set_completed_at : Value → Change
  set_translation_bundle : Value → Change
  set_error : Value → Change

abbrev pub set_attribute : Change → TranslationJob → TranslationJob
set_attribute (set_status s) job = record job { status = s }
set_attribute (set_updated_at s) job = record job { updated_at = s }
set_attribute (set_completed_at v) job = record job { completed_at = v }
set_attribute (set_translation_bundle v) job = record job { translation_bundle = v }
set_attribute (set_error v) job = record job { error = v }

abbrev pub set_attributes : List Change → TranslationJob → TranslationJob
set_attributes [] job = job
set_attributes (c ∷ cs) job = set_attributes cs (set_attribute c job)

-- `"updated_at" in changes`
abbrev pub stamps : List Change → Bool
stamps [] = false
stamps (set_updated_at s ∷ cs) = true
stamps (c ∷ cs) = stamps cs

-- The body of `_update` on the job that it found; `now` is the clock that it may read.
unfoldable pub changed : List Change → String → TranslationJob → TranslationJob
changed cs now job =
    let job' = set_attributes cs job in
    elim (stamps cs) [ true ↦ job' | false ↦ record job' { updated_at = now } ]
