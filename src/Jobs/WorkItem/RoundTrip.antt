-- ===== src/Jobs/WorkItem/RoundTrip.antt =====
-- Reading a work item's own message back.
use edctranslation_public.Prelude.{
  String, ◌≡◌, refl, ap, some, List, [], ◌∷◌, arith, string_eq, inl, inr,
}
use edctranslation_public.Prelude.Dict
use edctranslation_public.Prelude.Errors.{Result, ok, Exception, Result-cases, ◌>>=◌, ◌>>◌}
use edctranslation_public.Json.{
  Runtime, text, truthy, str, dict_of, iterate, entries-fields, texts, elements,
}
use edctranslation_public.Jobs.WorkItem.{
  TranslationWorkItem, validate, document_id, resolved_job_id, resolved_work_id,
  resolved_source_language, glossary_list, message, to_message, from_message, strings, str_or_empty,
  check_document_id,
}

module _ (py : Runtime) where
  -- The item with the identities that its message carries written out.
  abbrev pub settled : TranslationWorkItem → String → String → String → TranslationWorkItem
  settled item job work source = record item {
    glossary_ids = some (glossary_list py item.glossary_ids);
    job_id = some job;
    work_id = some work;
    source_language = some source;
  }

  pub strings-texts : (ss : List String) → strings py (elements (texts ss)) ≡ ss
  unfolding strings str
  strings-texts [] = refl
  strings-texts (s ∷ ss) = ap (◌∷◌ s) (strings-texts ss)

  str_or_empty-text : (s : String) → str_or_empty py (text s) ≡ s
  unfolding str_or_empty truthy str
  str_or_empty-text s = ground arith

  check_document_id-text :
      (item : TranslationWorkItem) (document : String)
      → document_id py item ≡ ok document
      → check_document_id py (text document) item ≡ ok item
  unfolding check_document_id str
  check_document_id-text item document d = ground arith

  checks-settled :
      (item : TranslationWorkItem) (job work document source : String)
      → validate item ≡ ok tt
      → document_id py item ≡ ok document
      → (validate (settled item job work source)
          >> check_document_id py (text document) (settled item job work source))
        ≡ ok (settled item job work source)
  unfolding validate document_id
  checks-settled item job work document source v d =
      rw v (check_document_id-text (settled item job work source) document d)

  from_message-message :
      (item : TranslationWorkItem) (job work document source : String)
      → validate item ≡ ok tt
      → document_id py item ≡ ok document
      → from_message py (message py item job work document source)
        ≡ ok (settled item job work source)
  unfolding from_message dict_of iterate str truthy Dict.lookup string_eq
  from_message-message item job work document source v d =
      rw (entries-fields, strings-texts, str_or_empty-text, entries-fields)
        (checks-settled item job work document source v d)

  -- The item as a reader of its message sees it, or the error of an item that has no message.
  unfoldable pub settle : TranslationWorkItem → Result Exception TranslationWorkItem
  settle item = do
    validate item
    job ← resolved_job_id py item
    work ← resolved_work_id py item
    document_id py item
    source ← resolved_source_language py item
    ok (settled item job work source)

  -- Writing a work item as a message and reading the message back gives the item with its job id,
  -- work id, source language and glossary list resolved; where an identity cannot be resolved,
  -- both sides raise the same error.
  pub from_message-to_message :
      (item : TranslationWorkItem) → (to_message py item >>= from_message py) ≡ settle item
  unfolding to_message settle
  from_message-to_message item = elim (Result-cases (validate item)) [
    | inr (e, v) ↦ rw v
    | inl (u, v) ↦ elim (Result-cases (resolved_job_id py item)) [
      | inr (e, j) ↦ rw (v, j)
      | inl (job, j) ↦ elim (Result-cases (resolved_work_id py item)) [
        | inr (e, w) ↦ rw (v, j, w)
        | inl (work, w) ↦ elim (Result-cases (document_id py item)) [
          | inr (e, d) ↦ rw (v, j, w, d)
          | inl (document, d) ↦ elim (Result-cases (resolved_source_language py item)) [
            | inr (e, l) ↦ rw (v, j, w, d, l)
            | inl (source, l) ↦
                rw (v, j, w, d, l) (from_message-message item job work document source v d)
          ]
        ]
      ]
    ]
  ]
