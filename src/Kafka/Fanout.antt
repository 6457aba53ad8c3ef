-- ===== src/Kafka/Fanout.antt =====
-- edc_translation/kafka_backend.py: `fanout_segments_for_work_item` and the outbox rows of its
-- segments.
pub mod Cover
use edctranslation_public.Prelude.{
  ℕ, zero, suc, ◌+◌, String, ◌<>◌, Option, none, some, List, [], ◌∷◌, map, length, take, drop,
  if◌then◌else◌,
}
use edctranslation_public.Prelude.Errors.{Result, ok, err, ◌>>=◌, ◌>>◌, Exception, value_error}
use edctranslation_public.Json.{ℤ, Value, list, nil, Payload, Runtime, iterate, get_or}
use edctranslation_public.Jobs.WorkItem.{TranslationWorkItem, validate}
use edctranslation_public.Worker.Loop.{below_one, count_of}
use edctranslation_public.Kafka.Text.{join, padded}
use edctranslation_public.Kafka.Envelope.{outbox_event_for_envelope}
use edctranslation_public.Kafka.Messages.{TranslationSegmentMessage, segment_envelope}
use edctranslation_public.Kafka.Messages.Segments.{
  span_ids_of, span_texts_of, segment_of, whole_segment,
}

module _ (py : Runtime) (item : TranslationWorkItem) (model_id engine_family : Option String) where
  -- The loop over the starts of the chunks: `number` is one more than the segments made, and the
  -- number of spans is enough fuel.
  unfoldable pub fanout_loop :
      ℕ → ℕ → ℕ → List Value → Result Exception (List TranslationSegmentMessage)
  fanout_loop zero k number spans = ok []
  fanout_loop (suc fuel) k number [] = ok []
  fanout_loop (suc fuel) k number (span ∷ spans) = do
    let chunk : List Value = take k (span ∷ spans)
    ids ← span_ids_of py chunk
    contents ← span_texts_of py chunk
    segment ←
        segment_of py item ("segment-" <> padded 6 number) (join "\n" contents) ids model_id
          engine_family
    segments ← fanout_loop fuel k (number + 1) (drop k (span ∷ spans))
    ok (segment ∷ segments)

  unfoldable pub fanout_spans : ℕ → List Value → Result Exception (List TranslationSegmentMessage)
  fanout_spans k [] = do segment ← whole_segment py item model_id engine_family; ok (segment ∷ [])
  fanout_spans k (span ∷ spans) = fanout_loop (length (span ∷ spans)) k 1 (span ∷ spans)

  unfoldable pub fanout_segments_for_work_item :
      ℤ → Result Exception (List TranslationSegmentMessage)
  fanout_segments_for_work_item max_spans_per_segment =
      if below_one max_spans_per_segment
      then err (value_error "max_spans_per_segment must be at least 1")
      else do
        validate item
        spans ← iterate py (get_or item.document_bundle "spans" (list nil))
        fanout_spans (count_of max_spans_per_segment) spans

unfoldable pub outbox_events_for_fanout : List TranslationSegmentMessage → List Payload
outbox_events_for_fanout segments =
    map (λ m. outbox_event_for_envelope (segment_envelope m)) segments
