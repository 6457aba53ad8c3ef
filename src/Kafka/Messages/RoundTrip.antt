-- ===== src/Kafka/Messages/RoundTrip.antt =====
-- The messages of the Kafka topics survive their own encoding.
use edctranslation_public.Prelude.{String, ◌≡◌, refl, ap, Option, none, some, [], ◌∷◌, string_eq}
use edctranslation_public.Prelude.Dict
use edctranslation_public.Prelude.Dict.{Dict}
use edctranslation_public.Prelude.Errors.{ok}
use edctranslation_public.Json.{Payload, entries-fields, Runtime, str, dict_of, iterate, int_of}
use edctranslation_public.Jobs.WorkItem.RoundTrip.{strings-texts}
use edctranslation_public.Kafka.Text.{sorted}
use edctranslation_public.Kafka.Envelope.{
  KafkaEnvelope, header_key, header_values, header_texts, to_message, from_message,
}
use edctranslation_public.Kafka.Messages.{
  TranslationSegmentMessage, TranslationResultMessage, TranslationDeadLetterMessage, text_or_null,
  dict_or_null, segment_payload, result_payload, dead_letter_payload,
}
use edctranslation_public.Kafka.Messages.Decode.{
  dict_or_none, optional_str, segment_from_payload, result_from_payload, dead_letter_from_payload,
}

module _ (py : Runtime) where
  optional_str-text_or_null : (o : Option String) → optional_str py (text_or_null o) ≡ o
  unfolding str
  optional_str-text_or_null none = refl
  optional_str-text_or_null (some s) = refl

  dict_or_none-dict_or_null : (o : Option Payload) → dict_or_none (dict_or_null o) ≡ o
  dict_or_none-dict_or_null none = refl
  dict_or_none-dict_or_null (some d) = ap some (entries-fields d)

  header_texts-values : (hs : Dict String String) → header_texts py (header_values hs) ≡ hs
  unfolding str
  header_texts-values [] = refl
  header_texts-values ((k, v) ∷ hs) = ap (◌∷◌ (k, v)) (header_texts-values hs)

  -- An envelope is read back from its message with its headers sorted by name.
  pub from_message-envelope :
      (e : KafkaEnvelope)
      → from_message py (to_message e) ≡ ok (record e { headers = sorted header_key e.headers })
  unfolding from_message to_message dict_of str Dict.lookup string_eq
  from_message-envelope e = rw (entries-fields, entries-fields, header_texts-values) refl

  -- A segment request is read back from its payload.
  pub from_payload-segment :
      (m : TranslationSegmentMessage) → segment_from_payload py (segment_payload m) ≡ ok m
  unfolding segment_from_payload segment_payload dict_of iterate int_of str Dict.lookup string_eq
  from_payload-segment m =
      rw (entries-fields, strings-texts, optional_str-text_or_null, optional_str-text_or_null) refl

  -- A result message is read back from its payload.
  pub from_payload-result :
      (m : TranslationResultMessage) → result_from_payload py (result_payload m) ≡ ok m
  unfolding result_from_payload result_payload dict_of str Dict.lookup string_eq
  from_payload-result m =
      rw
        (
          entries-fields, optional_str-text_or_null, dict_or_none-dict_or_null,
          dict_or_none-dict_or_null,
        )
        refl

  -- A dead letter message is read back from its payload.
  pub from_payload-dead_letter :
      (m : TranslationDeadLetterMessage)
      → dead_letter_from_payload py (dead_letter_payload m) ≡ ok m
  unfolding dead_letter_from_payload dead_letter_payload dict_of int_of str Dict.lookup string_eq
  from_payload-dead_letter m = rw (entries-fields, entries-fields, entries-fields) refl
