-- ===== src/Kafka/Messages/Segments.antt =====
-- edc_translation/kafka_backend.py: `TranslationSegmentMessage.from_work_item` and what it reads of
-- spans.
use edctranslation_public.Prelude.{String, Option, List, [], ◌∷◌, string_eq}
use edctranslation_public.Prelude.Errors.{Result, ok, err, ◌>>=◌, Exception, type_error}
use edctranslation_public.Json.{
  pos, Value, text, list, dict, nil, entries, Runtime, str, iterate, get, get_or, index,
}
use edctranslation_public.Jobs.WorkItem.{
  TranslationWorkItem, document_id, resolved_job_id, resolved_work_id, resolved_source_language,
}
use edctranslation_public.Kafka.Text.{join}
use edctranslation_public.Kafka.Messages.{TranslationSegmentMessage}

-- `span["span_id"]`, which only a dict answers.
abbrev pub item_of : Value → String → Result Exception Value
item_of (dict fs) key = index (entries fs) key
item_of _ key = err type_error

module _ (py : Runtime) where
  -- `[str(span["span_id"]) for span in spans]`
  unfoldable pub span_ids_of : List Value → Result Exception (List String)
  span_ids_of [] = ok []
  span_ids_of (span ∷ spans) = do
    id ← item_of span "span_id"
    ids ← span_ids_of spans
    ok (str py id ∷ ids)

  -- `str(span.get("text", "")) for span in spans`
  unfoldable pub span_texts_of : List Value → Result Exception (List String)
  span_texts_of [] = ok []
  span_texts_of (span ∷ spans) = do
    t ← get span "text" (text "")
    ts ← span_texts_of spans
    ok (str py t ∷ ts)

  -- The construction at the end of `from_work_item`.
  unfoldable pub segment_of :
      TranslationWorkItem
      → String
      → String
      → List String
      → Option String
      → Option String
      → Result Exception TranslationSegmentMessage
  segment_of item segment_id content ids model_id engine_family = do
    job_id ← resolved_job_id py item
    work_id ← resolved_work_id py item
    document_id ← document_id py item
    source_language ← resolved_source_language py item
    ok (record {
      job_id = job_id;
      work_id = work_id;
      segment_id = segment_id;
      document_id = document_id;
      source_language = source_language;
      target_language = item.target_language;
      provider_id = item.provider_id;
      tenant_id = item.tenant_id;
      text = content;
      span_ids = ids;
      model_id = model_id;
      engine_family = engine_family;
      attempt = pos 0;
      metadata = item.metadata;
    })

  -- `from_work_item` without a text and span ids of the caller's: those of all the spans.
  unfoldable pub whole_segment :
      TranslationWorkItem
      → Option String
      → Option String
      → Result Exception TranslationSegmentMessage
  whole_segment item model_id engine_family = do
    spans ← iterate py (get_or item.document_bundle "spans" (list nil))
    ids ← span_ids_of spans
    contents ← span_texts_of spans
    segment_of item "segment-000001" (join "\n" contents) ids model_id engine_family
