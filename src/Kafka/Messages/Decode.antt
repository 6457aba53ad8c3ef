-- ===== src/Kafka/Messages/Decode.antt =====
-- edc_translation/kafka_backend.py: the `from_payload` methods of the messages.
use edctranslation_public.Prelude.{String, Option, none, some, [], string_eq}
use edctranslation_public.Prelude.Errors.{Result, ok, ◌>>=◌, Exception}
use edctranslation_public.Json.{
  pos, Value, null, whole, list, dict, nil, Payload, fields, entries, Runtime, str, dict_of,
  iterate, int_of, get_or, index,
}
use edctranslation_public.Jobs.WorkItem.{document_id, strings}
use edctranslation_public.Kafka.Messages.{
  TranslationSegmentMessage, TranslationResultMessage, TranslationDeadLetterMessage,
}

-- `dict(v) if isinstance(v, dict) else None`
abbrev pub dict_or_none : Value → Option Payload
dict_or_none (dict fs) = some (entries fs)
dict_or_none _ = none

module _ (py : Runtime) where
  abbrev pub optional_str : Value → Option String
  optional_str null = none
  optional_str v = some (str py v)

  unfoldable pub segment_from_payload : Payload → Result Exception TranslationSegmentMessage
  segment_from_payload payload = do
    job_id ← index payload "job_id"
    work_id ← index payload "work_id"
    segment_id ← index payload "segment_id"
    document_id ← index payload "document_id"
    source_language ← index payload "source_language"
    target_language ← index payload "target_language"
    provider_id ← index payload "provider_id"
    tenant_id ← index payload "tenant_id"
    stated_text ← index payload "text"
    span_ids ← iterate py (get_or payload "span_ids" (list nil))
    attempt ← int_of py (get_or payload "attempt" (whole (pos 0)))
    metadata ← dict_of py (get_or payload "metadata" (dict (fields [])))
    ok (record {
      job_id = str py job_id;
      work_id = str py work_id;
      segment_id = str py segment_id;
      document_id = str py document_id;
      source_language = str py source_language;
      target_language = str py target_language;
      provider_id = str py provider_id;
      tenant_id = str py tenant_id;
      text = str py stated_text;
      span_ids = strings py span_ids;
      model_id = optional_str (get_or payload "model_id" null);
      engine_family = optional_str (get_or payload "engine_family" null);
      attempt = attempt;
      metadata = metadata;
    })

  unfoldable pub result_from_payload : Payload → Result Exception TranslationResultMessage
  result_from_payload payload = do
    job_id ← index payload "job_id"
    work_id ← index payload "work_id"
    document_id ← index payload "document_id"
    status ← index payload "status"
    target_language ← index payload "target_language"
    provider_id ← index payload "provider_id"
    tenant_id ← index payload "tenant_id"
    metadata ← dict_of py (get_or payload "metadata" (dict (fields [])))
    ok (record {
      job_id = str py job_id;
      work_id = str py work_id;
      document_id = str py document_id;
      status = str py status;
      target_language = str py target_language;
      provider_id = str py provider_id;
      tenant_id = str py tenant_id;
      segment_id = optional_str (get_or payload "segment_id" null);
      translation_bundle = dict_or_none (get_or payload "translation_bundle" null);
      error = dict_or_none (get_or payload "error" null);
      metadata = metadata;
    })

  unfoldable pub dead_letter_from_payload : Payload → Result Exception TranslationDeadLetterMessage
  dead_letter_from_payload payload = do
    job_id ← index payload "job_id"
    work_id ← index payload "work_id"
    tenant_id ← index payload "tenant_id"
    source_topic ← index payload "source_topic"
    source_key ← index payload "source_key"
    stated_error ← index payload "error"
    error ← dict_of py stated_error
    stated_payload ← index payload "payload"
    inner ← dict_of py stated_payload
    stated_attempts ← index payload "attempts"
    attempts ← int_of py stated_attempts
    metadata ← dict_of py (get_or payload "metadata" (dict (fields [])))
    ok (record {
      job_id = str py job_id;
      work_id = str py work_id;
      tenant_id = str py tenant_id;
      source_topic = str py source_topic;
      source_key = str py source_key;
      error = error;
      payload = inner;
      attempts = attempts;
      metadata = metadata;
    })
