-- ===== src/Tests/Segments.antt =====
-- Runs of the messages, the fan-out and the reassembly of edc_translation/kafka_backend.py.
use edctranslation_public.Prelude.{
  ◌≡◌, refl, true, none, some, [], ◌∷◌, keep, All, arith, string_eq,
}
use edctranslation_public.Prelude.Dict
use edctranslation_public.Prelude.Errors.{ok}
use edctranslation_public.Json.{
  pos, Value, text, list, dict, nil, cons, field, end, str, get, get_or, iterate,
}
use edctranslation_public.Jobs.WorkItem.{
  TranslationWorkItem, validate, document_id, resolved_job_id, resolved_work_id,
  resolved_source_language,
}
use edctranslation_public.Kafka.Text.{sorted}
use edctranslation_public.Kafka.Envelope.{header_key, to_message, from_message}
use edctranslation_public.Kafka.Messages.{
  TranslationResultMessage, TranslationSegmentMessage, segment_envelope, segment_payload,
  result_payload, from_worker_result, from_result, dead_letter_payload,
}
use edctranslation_public.Kafka.Messages.Decode.{
  segment_from_payload, result_from_payload, dead_letter_from_payload,
}
use edctranslation_public.Kafka.Messages.Segments.{item_of}
use edctranslation_public.Kafka.Messages.RoundTrip.{
  from_message-envelope, from_payload-segment, from_payload-result, from_payload-dead_letter,
}
use edctranslation_public.Kafka.Fanout.{fanout_segments_for_work_item}
use edctranslation_public.Kafka.Fanout.Cover.{Covers, fanout-Covers}
use edctranslation_public.Kafka.Reassembly.{
  collect, collect_one, failed_ids, absent, reassembly_plan,
}
use edctranslation_public.Kafka.Reassembly.Report.{
  latest, IsDone, reassembly_plan-missing, reassembly_plan-ready,
}
use edctranslation_public.Tests.Fixtures.{py, item, success}

-- Two spans of a document.
abbrev first_span : Value
first_span = dict (field "span_id" (text "s1") (field "text" (text "hello") end))

abbrev second_span : Value
second_span = dict (field "span_id" (text "s2") (field "text" (text "hello") end))

abbrev document : TranslationWorkItem
document = record item {
  document_bundle =
      ("document_id", text "d1") ∷ ("spans", list (cons first_span (cons second_span nil))) ∷ [];
}

abbrev segment : TranslationSegmentMessage
segment = record {
  job_id = "j1";
  work_id = "w1";
  segment_id = "segment-000001";
  document_id = "d1";
  source_language = "en";
  target_language = "fr";
  provider_id = "local";
  tenant_id = "standalone";
  text = "hello";
  span_ids = "s1" ∷ [];
  model_id = none;
  engine_family = some "ct2";
  attempt = pos 0;
  metadata = [];
}

abbrev result : TranslationResultMessage
result = record {
  job_id = "j1";
  work_id = "w1";
  document_id = "d1";
  status = "succeeded";
  target_language = "fr";
  provider_id = "local";
  tenant_id = "standalone";
  segment_id = some "s1";
  translation_bundle = none;
  error = none;
  metadata = [];
}

from_message-envelope_example :
    from_message py (to_message (segment_envelope segment))
    ≡ ok (record (segment_envelope segment) {
      headers = sorted header_key (segment_envelope segment).headers;
    })
from_message-envelope_example = from_message-envelope py (segment_envelope segment)

from_payload-segment_example : segment_from_payload py (segment_payload segment) ≡ ok segment
from_payload-segment_example = from_payload-segment py segment

from_payload-result_example :
    result_from_payload py (result_payload (from_worker_result success none))
    ≡ ok (from_worker_result success none)
from_payload-result_example = from_payload-result py (from_worker_result success none)

from_payload-dead_letter_example :
    dead_letter_from_payload py
      (dead_letter_payload (from_result result "translation-jobs" (pos 1)))
    ≡ ok (from_result result "translation-jobs" (pos 1))
from_payload-dead_letter_example =
    from_payload-dead_letter py (from_result result "translation-jobs" (pos 1))

j : resolved_job_id py document ≡ ok "j1"
unfolding resolved_job_id string_eq
j = refl

w : resolved_work_id py document ≡ ok "w1"
unfolding resolved_work_id string_eq
w = refl

d : document_id py document ≡ ok "d1"
unfolding document_id Dict.lookup string_eq str
d = refl

l : resolved_source_language py document ≡ ok "en"
unfolding resolved_source_language string_eq
l = refl

v : validate document ≡ ok tt
unfolding validate Dict.lookup string_eq
v = refl

given :
    iterate py (get_or document.document_bundle "spans" (list nil))
    ≡ ok (first_span ∷ second_span ∷ [])
unfolding iterate Dict.lookup string_eq
given = refl

-- The id of a span, where it is the first entry.
abbrev first_entry : Value → Value
first_entry (dict (field k v fs)) = v
first_entry _ = text ""

readable :
    All
      (λ span.
        (item_of span "span_id" ≡ ok (first_entry span))
        × (get span "text" (text "") ≡ ok (text "hello")))
      (first_span ∷ second_span ∷ [])
unfolding get Dict.lookup string_eq
readable = ((refl, refl), ((refl, refl), tt))

fanout-Covers_example :
    Covers py document none none first_entry
      (λ span. text "hello")
      1
      1
      (first_span ∷ second_span ∷ [])
      (fanout_segments_for_work_item py document none none (pos 1))
fanout-Covers_example =
    fanout-Covers py document none none first_entry (λ span. text "hello") "j1" "w1" "d1" "en" j w d
      l 1 (first_span ∷ second_span ∷ []) (omega arith) v given readable

reassembly_plan-missing_example :
    (reassembly_plan "j1" ("s1" ∷ "s2" ∷ []) (result ∷ [])).missing_segments
    ≡ keep (λ id. absent (latest "j1" id (result ∷ []))) ("s1" ∷ "s2" ∷ [])
reassembly_plan-missing_example = reassembly_plan-missing "j1" (result ∷ []) ("s1" ∷ "s2" ∷ [])

all_in : (reassembly_plan "j1" ("s1" ∷ []) (result ∷ [])).ready ≡ true
unfolding reassembly_plan string_eq Dict.lookup collect collect_one Dict.insert failed_ids
all_in = refl

reassembly_plan-ready_example : All (IsDone "j1" (result ∷ [])) ("s1" ∷ [])
reassembly_plan-ready_example = reassembly_plan-ready "j1" (result ∷ []) ("s1" ∷ []) all_in
