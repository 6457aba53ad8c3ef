-- ===== src/Kafka/Fanout/Cover.antt =====
-- The segments of a fan-out cover the spans of the document.
use edctranslation_public.Prelude.{
  ℕ, zero, suc, ◌+◌, ◌≤◌, ◌<◌, String, ◌<>◌, ◌≡◌, refl, ap, Option, List, [], ◌∷◌, ◌++◌, map,
  length, length-take, length-drop, take, drop, All, arith, false, string_eq, nat_eq, length-map,
  ltb,
}
use edctranslation_public.Prelude.Errors.{Result, ok, Exception}
use edctranslation_public.Json.{pos, text, str, get, Value, list, nil, Runtime, iterate, get_or}
use edctranslation_public.Jobs.WorkItem.{
  TranslationWorkItem, validate, resolved_job_id, resolved_work_id, resolved_source_language,
  document_id,
}
use edctranslation_public.Kafka.Text.{join, padded}
use edctranslation_public.Kafka.Messages.{TranslationSegmentMessage}
use edctranslation_public.Kafka.Messages.Segments.{
  item_of, whole_segment, span_ids_of, span_texts_of, segment_of,
}
use edctranslation_public.Kafka.Fanout.{fanout_loop, fanout_spans, fanout_segments_for_work_item}

module _ {ℓ κ} {A : Type ℓ} (P : A → Type κ) where
  All-take : (k : ℕ) (xs : List A) → All P xs → All P (take k xs)
  All-take zero xs h = tt
  All-take (suc k) [] h = h
  All-take (suc k) (x ∷ xs) (p, h) = (p, All-take k xs h)

  All-drop : (k : ℕ) (xs : List A) → All P xs → All P (drop k xs)
  All-drop zero xs h = h
  All-drop (suc k) [] h = h
  All-drop (suc k) (x ∷ xs) (p, h) = All-drop k xs h

map-take-drop :
    {A B : Type 0} (f : A → B) (k : ℕ) (xs : List A)
    → map f (take k xs) ++ map f (drop k xs) ≡ map f xs
map-take-drop f zero xs = refl
map-take-drop f (suc k) [] = refl
map-take-drop f (suc k) (x ∷ xs) = ap (◌∷◌ (f x)) (map-take-drop f k xs)

shrinks :
    (k fuel : ℕ) (s : Value) (spans : List Value)
    → 0 < k
    → length (s ∷ spans) ≤ suc fuel
    → length (drop k (s ∷ spans)) ≤ fuel
shrinks k fuel s spans positive enough = omega (arith, length-drop k (s ∷ spans), enough)

fits : {A B : Type 0} (f : A → B) (k : ℕ) (xs : List A) → length (map f (take k xs)) ≤ k
fits f k xs = omega (arith, length-map f (take k xs), length-take k xs)

-- The span ids of all segments, in order, and the labels that `n` segments have from `number` on.
abbrev pub ids_in : List TranslationSegmentMessage → List String
ids_in [] = []
ids_in (m ∷ ms) = m.span_ids ++ ids_in ms

abbrev pub labels : ℕ → ℕ → List String
labels number zero = []
labels number (suc n) = ("segment-" <> padded 6 number) ∷ labels (number + 1) n

abbrev pub labels_of : List TranslationSegmentMessage → List String
labels_of ms = map (λ (m : TranslationSegmentMessage). m.segment_id) ms

module _ (py : Runtime) (item : TranslationWorkItem) (model_id engine_family : Option String)
    (id content : Value → Value) where
  -- A span has an id, and a text or none.
  abbrev pub IsReadable : Value → Type 0
  IsReadable span =
      (item_of span "span_id" ≡ ok (id span)) × (get span "text" (text "") ≡ ok (content span))

  abbrev pub id_texts : List Value → List String
  id_texts spans = map (λ s. str py (id s)) spans

  span_ids_of-ok :
      (spans : List Value) → All IsReadable spans → span_ids_of py spans ≡ ok (id_texts spans)
  unfolding span_ids_of
  span_ids_of-ok [] h = refl
  span_ids_of-ok (s ∷ spans) ((i, c), h) = rw (i, span_ids_of-ok spans h) refl

  span_texts_of-ok :
      (spans : List Value)
      → All IsReadable spans
      → span_texts_of py spans ≡ ok (map (λ s. str py (content s)) spans)
  unfolding span_texts_of
  span_texts_of-ok [] h = refl
  span_texts_of-ok (s ∷ spans) ((i, c), h) = rw (c, span_texts_of-ok spans h) refl

  -- What the segments of some spans are: they hold the ids of the spans in order, at most `k` each,
  -- and are labelled from `number` on.
  abbrev pub Covers :
      ℕ → ℕ → List Value → Result Exception (List TranslationSegmentMessage) → Type 0
  Covers k number spans r =
      (ms : List TranslationSegmentMessage) × (r ≡ ok ms)
      × (ids_in ms ≡ id_texts spans)
      × All (λ m. length m.span_ids ≤ k) ms
      × (labels_of ms ≡ labels number (length ms))

  module _ (job work document source : String) (j : resolved_job_id py item ≡ ok job)
      (w : resolved_work_id py item ≡ ok work) (d : document_id py item ≡ ok document)
      (l : resolved_source_language py item ≡ ok source) where
    abbrev made : String → String → List String → TranslationSegmentMessage
    made segment_id contents ids = record {
      job_id = job;
      work_id = work;
      segment_id = segment_id;
      document_id = document;
      source_language = source;
      target_language = item.target_language;
      provider_id = item.provider_id;
      tenant_id = item.tenant_id;
      text = contents;
      span_ids = ids;
      model_id = model_id;
      engine_family = engine_family;
      attempt = pos 0;
      metadata = item.metadata;
    }

    segment_of_lem :
        (segment_id contents : String) (ids : List String)
        → segment_of py item segment_id contents ids model_id engine_family
          ≡ ok (made segment_id contents ids)
    unfolding segment_of
    segment_of_lem segment_id contents ids = rw (j, w, d, l) refl

    fanout_loop-Covers :
        (fuel k number : ℕ) (spans : List Value)
        → 0 < k
        → length spans ≤ fuel
        → All IsReadable spans
        → Covers k number spans (fanout_loop py item model_id engine_family fuel k number spans)
    unfolding fanout_loop
    fanout_loop-Covers zero k number [] positive enough h = ([], refl, refl, tt, refl)
    fanout_loop-Covers zero k number (s ∷ spans) positive enough h = absurd (omega arith)
    fanout_loop-Covers (suc fuel) k number [] positive enough h = ([], refl, refl, tt, refl)
    fanout_loop-Covers (suc fuel) k number (s ∷ spans) positive enough h =
        let rest = drop k (s ∷ spans) in
        let (ms, r, ids, sizes, names) =
          fanout_loop-Covers fuel k (number + 1) rest positive
            (shrinks k fuel s spans positive enough) (All-drop IsReadable k (s ∷ spans) h) in
        let chunk = take k (s ∷ spans) in
        let hc = All-take IsReadable k (s ∷ spans) h in
        (
          made ("segment-" <> padded 6 number) (join "\n" (map (λ s. str py (content s)) chunk))
                (id_texts chunk)
              ∷ ms,
          rw (span_ids_of-ok chunk hc, span_texts_of-ok chunk hc, segment_of_lem, r) refl,
          rw ids (map-take-drop (λ s. str py (id s)) k (s ∷ spans)),
          (fits (λ s. str py (id s)) k (s ∷ spans), sizes),
          rw names refl,
        )

    whole_lem :
        (k : ℕ)
        → 0 < k
        → iterate py (get_or item.document_bundle "spans" (list nil)) ≡ ok []
        → Covers k 1 [] (fanout_spans py item model_id engine_family k [])
    unfolding fanout_spans whole_segment span_ids_of span_texts_of nat_eq
    whole_lem k positive none_given = (
      made "segment-000001" "" [] ∷ [],
      rw (none_given, segment_of_lem) refl,
      refl,
      (omega arith, tt),
      refl,
    )

    fanout_spans-Covers :
        (k : ℕ) (spans : List Value)
        → 0 < k
        → iterate py (get_or item.document_bundle "spans" (list nil)) ≡ ok spans
        → All IsReadable spans
        → Covers k 1 spans (fanout_spans py item model_id engine_family k spans)
    unfolding fanout_spans
    fanout_spans-Covers k [] positive given h = whole_lem k positive given
    fanout_spans-Covers k (s ∷ spans) positive given h =
        fanout_loop-Covers (length (s ∷ spans)) k 1 (s ∷ spans) positive (omega arith) h

    -- For a work item whose identities resolve and whose spans can be read, and a limit of at least
    -- one span, the fan-out returns segments that hold the ids of all spans in their order, no
    -- segment more than the limit, labelled by their numbers from one on.
    pub fanout-Covers :
        (k : ℕ) (spans : List Value)
        → 0 < k
        → validate item ≡ ok tt
        → iterate py (get_or item.document_bundle "spans" (list nil)) ≡ ok spans
        → All IsReadable spans
        → Covers k 1 spans (fanout_segments_for_work_item py item model_id engine_family (pos k))
    unfolding fanout_segments_for_work_item
    fanout-Covers k spans positive v given h =
        let accepted : ltb k 1 ≡ false = ground arith in
        rw (accepted, fanout_segments_for_work_item, v, given)
          (fanout_spans-Covers k spans positive given h)
