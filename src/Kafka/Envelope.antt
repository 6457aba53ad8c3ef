-- ===== src/Kafka/Envelope.antt =====
-- edc_translation/kafka_backend.py: `KafkaEnvelope`, the topics, and the outbox rows of envelopes.
use edctranslation_public.Prelude.{
  String, Bool, false, [], ◌∷◌, ◌==◌, string_eq, starts_with, if◌then◌else◌,
}
use edctranslation_public.Prelude.Dict.{Dict}
use edctranslation_public.Prelude.Errors.{Result, ok, ◌>>=◌, ◌>>◌, guard, Exception, value_error}
use edctranslation_public.Json.{
  Value, null, text, dict, Payload, fields, Runtime, str, dict_of, get_or, index,
}
use edctranslation_public.Kafka.Text.{sorted}

abbrev pub kafka_contract_version : String
kafka_contract_version = "translation-kafka-v1"

abbrev pub jobs_topic : String
jobs_topic = "translation-jobs"

abbrev pub segments_topic : String
segments_topic = "translation-segments"

abbrev pub results_topic : String
results_topic = "translation-results"

abbrev pub events_topic : String
events_topic = "translation-events"

abbrev pub dlq_topic : String
dlq_topic = "translation-dlq"

pub record KafkaEnvelope : Type 0 where
  pub event_type : String
  pub job_id : String
  pub tenant_id : String
  pub key : String
  pub payload : Payload
  pub headers : Dict String String

abbrev pub header_key : String × String → String
header_key (k, v) = k

abbrev pub header_values : Dict String String → Payload
header_values [] = []
header_values ((k, v) ∷ hs) = (k, text v) ∷ header_values hs

unfoldable pub to_message : KafkaEnvelope → Payload
to_message e =
    ("contract_version", text kafka_contract_version)
    ∷ ("event_type", text e.event_type)
    ∷ ("job_id", text e.job_id)
    ∷ ("tenant_id", text e.tenant_id)
    ∷ ("key", text e.key)
    ∷ ("headers", dict (fields (header_values (sorted header_key e.headers))))
    ∷ ("payload", dict (fields e.payload))
    ∷ []

-- `value == KAFKA_CONTRACT_VERSION`
abbrev pub is_version : Value → Bool
is_version (text s) = s == kafka_contract_version
is_version _ = false

module _ (py : Runtime) where
  abbrev pub header_texts : Payload → Dict String String
  header_texts [] = []
  header_texts ((k, v) ∷ hs) = (k, str py v) ∷ header_texts hs

  unfoldable pub from_message : Payload → Result Exception KafkaEnvelope
  from_message message = do
    guard (is_version (get_or message "contract_version" null))
        (value_error "unsupported Kafka contract version")
    event_type ← index message "event_type"
    job_id ← index message "job_id"
    tenant_id ← index message "tenant_id"
    key ← index message "key"
    headers ← dict_of py (get_or message "headers" (dict (fields [])))
    stated ← index message "payload"
    payload ← dict_of py stated
    ok (record {
      event_type = str py event_type;
      job_id = str py job_id;
      tenant_id = str py tenant_id;
      key = str py key;
      payload = payload;
      headers = header_texts headers;
    })

unfoldable pub topic_for_event : String → String
topic_for_event event_type =
    if event_type == "translation.segment.requested"
    then segments_topic
    else if starts_with event_type "translation.result."
    then results_topic
    else if starts_with event_type "translation.job."
    then jobs_topic
    else if starts_with event_type "translation.dead_letter."
    then dlq_topic
    else events_topic

unfoldable pub outbox_event_for_envelope : KafkaEnvelope → Payload
outbox_event_for_envelope e =
    ("aggregate_type", text "translation_job")
    ∷ ("aggregate_id", text e.job_id)
    ∷ ("event_type", text e.event_type)
    ∷ ("payload", dict (fields (to_message e)))
    ∷ ("kafka_topic", text (topic_for_event e.event_type))
    ∷ ("kafka_key", text e.key)
    ∷ []
