-- ===== src/Kafka/Messages.antt =====
-- edc_translation/kafka_backend.py: the messages for segments, results and dead letters.
pub mod Decode
pub mod RoundTrip
pub mod Segments
use edctranslation_public.Prelude.{
  String, ◌<>◌, Option, none, some, List, [], ◌∷◌, ◌==◌, string_eq, if◌then◌else◌,
}
use edctranslation_public.Prelude.Dict
use edctranslation_public.Prelude.Errors.{Result, ok, err, ◌>>=◌, Exception, type_error}
use edctranslation_public.Json.{
  ℤ, pos, Value, null, whole, text, list, dict, nil, texts, Payload, fields, entries, Runtime, str,
  dict_of, iterate, int_of, get, get_or, index, text_or,
}
use edctranslation_public.Jobs.WorkItem.{
  TranslationWorkItem, document_id, resolved_job_id, resolved_work_id, resolved_source_language,
  strings,
}
use edctranslation_public.Worker.Results.{TranslationWorkerResult}
use edctranslation_public.Kafka.Text.{join}
use edctranslation_public.Kafka.Envelope.{KafkaEnvelope}

pub record TranslationSegmentMessage : Type 0 where
  pub job_id : String
  pub work_id : String
  pub segment_id : String
  pub document_id : String
  pub source_language : String
  pub target_language : String
  pub provider_id : String
  pub tenant_id : String
  pub text : String
  pub span_ids : List String
  pub model_id : Option String
  pub engine_family : Option String
  pub attempt : ℤ
  pub metadata : Payload

pub record TranslationResultMessage : Type 0 where
  pub job_id : String
  pub work_id : String
  pub document_id : String
  pub status : String
  pub target_language : String
  pub provider_id : String
  pub tenant_id : String
  pub segment_id : Option String
  pub translation_bundle : Option Payload
  pub error : Option Payload
  pub metadata : Payload

pub record TranslationDeadLetterMessage : Type 0 where
  pub job_id : String
  pub work_id : String
  pub tenant_id : String
  pub source_topic : String
  pub source_key : String
  pub error : Payload
  pub payload : Payload
  pub attempts : ℤ
  pub metadata : Payload

abbrev pub text_or_null : Option String → Value
text_or_null none = null
text_or_null (some s) = text s

abbrev pub dict_or_null : Option Payload → Value
dict_or_null none = null
dict_or_null (some d) = dict (fields d)

unfoldable pub segment_payload : TranslationSegmentMessage → Payload
segment_payload m =
    ("job_id", text m.job_id)
    ∷ ("work_id", text m.work_id)
    ∷ ("segment_id", text m.segment_id)
    ∷ ("document_id", text m.document_id)
    ∷ ("source_language", text m.source_language)
    ∷ ("target_language", text m.target_language)
    ∷ ("provider_id", text m.provider_id)
    ∷ ("tenant_id", text m.tenant_id)
    ∷ ("text", text m.text)
    ∷ ("span_ids", list (texts m.span_ids))
    ∷ ("model_id", text_or_null m.model_id)
    ∷ ("engine_family", text_or_null m.engine_family)
    ∷ ("attempt", whole m.attempt)
    ∷ ("metadata", dict (fields m.metadata))
    ∷ []

unfoldable pub segment_envelope : TranslationSegmentMessage → KafkaEnvelope
segment_envelope m = record {
  event_type = "translation.segment.requested";
  job_id = m.job_id;
  tenant_id = m.tenant_id;
  key = m.segment_id;
  payload = segment_payload m;
  headers = ("document_id", m.document_id) ∷ ("provider_id", m.provider_id) ∷ [];
}

unfoldable pub result_payload : TranslationResultMessage → Payload
result_payload m =
    ("job_id", text m.job_id)
    ∷ ("work_id", text m.work_id)
    ∷ ("document_id", text m.document_id)
    ∷ ("status", text m.status)
    ∷ ("target_language", text m.target_language)
    ∷ ("provider_id", text m.provider_id)
    ∷ ("tenant_id", text m.tenant_id)
    ∷ ("segment_id", text_or_null m.segment_id)
    ∷ ("translation_bundle", dict_or_null m.translation_bundle)
    ∷ ("error", dict_or_null m.error)
    ∷ ("metadata", dict (fields m.metadata))
    ∷ []

-- `self.segment_id or self.work_id`
abbrev pub result_key : TranslationResultMessage → String
result_key m = text_or m.segment_id (λ s. s) m.work_id

unfoldable pub result_envelope : TranslationResultMessage → KafkaEnvelope
result_envelope m = record {
  event_type = "translation.result." <> m.status;
  job_id = m.job_id;
  tenant_id = m.tenant_id;
  key = result_key m;
  payload = result_payload m;
  headers = ("document_id", m.document_id) ∷ ("provider_id", m.provider_id) ∷ [];
}

unfoldable pub from_worker_result :
    TranslationWorkerResult → Option String → TranslationResultMessage
from_worker_result r segment_id = record {
  job_id = r.job_id;
  work_id = r.work_id;
  document_id = r.document_id;
  status = r.status;
  target_language = r.target_language;
  provider_id = r.provider_id;
  tenant_id = r.tenant_id;
  segment_id = segment_id;
  translation_bundle = r.translation_bundle;
  error = r.error;
  metadata = r.metadata;
}

abbrev pub error_or_none : Option Payload → Payload
error_or_none none = []
error_or_none (some e) = e

unfoldable pub from_result : TranslationResultMessage → String → ℤ → TranslationDeadLetterMessage
from_result r source_topic attempts = record {
  job_id = r.job_id;
  work_id = r.work_id;
  tenant_id = r.tenant_id;
  source_topic = source_topic;
  source_key = result_key r;
  error = error_or_none r.error;
  payload = result_payload r;
  attempts = attempts;
  metadata = r.metadata;
}

unfoldable pub dead_letter_payload : TranslationDeadLetterMessage → Payload
dead_letter_payload m =
    ("job_id", text m.job_id)
    ∷ ("work_id", text m.work_id)
    ∷ ("tenant_id", text m.tenant_id)
    ∷ ("source_topic", text m.source_topic)
    ∷ ("source_key", text m.source_key)
    ∷ ("error", dict (fields m.error))
    ∷ ("payload", dict (fields m.payload))
    ∷ ("attempts", whole m.attempts)
    ∷ ("metadata", dict (fields m.metadata))
    ∷ []

unfoldable pub dead_letter_envelope : TranslationDeadLetterMessage → KafkaEnvelope
dead_letter_envelope m = record {
  event_type = "translation.dead_letter.recorded";
  job_id = m.job_id;
  tenant_id = m.tenant_id;
  key = m.source_key;
  payload = dead_letter_payload m;
  headers = ("source_topic", m.source_topic) ∷ ("work_id", m.work_id) ∷ [];
}
