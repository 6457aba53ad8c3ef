-- ===== src/Jobs/WorkItem.antt =====
-- edc_translation/jobs.py: `TranslationWorkItem`, its derived identities and its queue message.
pub mod RoundTrip
use edctranslation_public.Prelude.{
  String, ◌<>◌, Bool, true, false, Option, none, some, List, [], ◌∷◌, ◌==◌, string_eq,
  if◌then◌else◌,
}
use edctranslation_public.Prelude.Dict
use edctranslation_public.Prelude.Errors.{
  Result, ok, err, ◌>>=◌, ◌>>◌, guard, Exception, value_error,
}
use edctranslation_public.Json.{
  Value, null, flag, text, list, dict, nil, Payload, fields, items, texts, Runtime, truthy, str,
  dict_of, iterate, get, get_or, index, text_or,
}

-- `instruction_set_id` holds what the message carries, unconverted.
pub record TranslationWorkItem : Type 0 where
  pub document_bundle : Payload
  pub target_language : String
  pub provider_id : String
  pub allow_nc_licensed : Bool
  pub certified : Bool
  pub tenant_id : String
  pub glossary_ids : Option (List String)
  pub instruction_set_id : Value
  pub metadata : Payload
  pub job_id : Option String
  pub work_id : Option String
  pub source_language : Option String

abbrev pub no_document_id : String
no_document_id = "work item document_bundle must include document_id"

abbrev pub other_document_id : String
other_document_id = "work item document_id does not match DocumentBundle document_id"

unfoldable pub validate : TranslationWorkItem → Result Exception (Unit {0})
validate item = elim (Dict.lookup "document_id" item.document_bundle) [
  | none ↦ err (value_error no_document_id)
  | some v ↦ ok tt
]

module _ (py : Runtime) where
  unfoldable pub document_id : TranslationWorkItem → Result Exception String
  document_id item = do v ← index item.document_bundle "document_id"; ok (str py v)

  -- The loop over the spans in `_source_language`.
  unfoldable pub first_language : List Value → Result Exception String
  first_language [] = ok "und"
  first_language (span ∷ spans) =
      let rest = first_language spans in
      do language ← get span "language" null; if truthy language then ok (str py language) else rest

  unfoldable pub source_language : Payload → Result Exception String
  unfolding first_language
  source_language bundle = do
    primary ← get (get_or bundle "language_metadata" (dict (fields []))) "primary_language" null
    if truthy primary
        then ok (str py primary)
        else do spans ← iterate py (get_or bundle "spans" (list nil)); first_language spans

  unfoldable pub resolved_job_id : TranslationWorkItem → Result Exception String
  resolved_job_id item = text_or item.job_id ok (
      let known = get_or item.metadata "job_id" null in
      if truthy known then ok (str py known) else document_id item)

  unfoldable pub resolved_work_id : TranslationWorkItem → Result Exception String
  resolved_work_id item =
      text_or item.work_id ok (do job ← resolved_job_id item; ok (job <> ":document"))

  unfoldable pub resolved_source_language : TranslationWorkItem → Result Exception String
  resolved_source_language item =
      text_or item.source_language ok (source_language item.document_bundle)

  -- `list(self.glossary_ids or [])`
  abbrev pub glossary_list : Option (List String) → List String
  glossary_list none = []
  glossary_list (some ids) = ids

  -- The dict that `to_message` returns, from the identities that it resolves.
  abbrev pub message : TranslationWorkItem → String → String → String → String → Payload
  message item job work document source =
      ("job_id", text job)
      ∷ ("work_id", text work)
      ∷ ("document_id", text document)
      ∷ ("source_language", text source)
      ∷ ("target_language", text item.target_language)
      ∷ ("provider_id", text item.provider_id)
      ∷ ("tenant_id", text item.tenant_id)
      ∷ ("document_bundle", dict (fields item.document_bundle))
      ∷ ("allow_nc_licensed", flag item.allow_nc_licensed)
      ∷ ("certified", flag item.certified)
      ∷ ("glossary_ids", list (texts (glossary_list item.glossary_ids)))
      ∷ ("instruction_set_id", item.instruction_set_id)
      ∷ ("metadata", dict (fields item.metadata))
      ∷ []

  unfoldable pub to_message : TranslationWorkItem → Result Exception Payload
  to_message item = do
    validate item
    job ← resolved_job_id item
    work ← resolved_work_id item
    document ← document_id item
    source ← resolved_source_language item
    ok (message item job work document source)

  -- `str(payload.get("source_language") or "")`
  unfoldable pub str_or_empty : Value → String
  str_or_empty v = if truthy v then str py v else ""

  unfoldable pub strings : List Value → List String
  strings [] = []
  strings (v ∷ vs) = str py v ∷ strings vs

  -- The last test of `from_message`: a `document_id` beside the bundle must be the bundle's.
  unfoldable pub check_document_id :
      Value → TranslationWorkItem → Result Exception TranslationWorkItem
  check_document_id stated item =
      if truthy stated
      then (do
        own ← document_id item
        if str py stated == own then ok item else err (value_error other_document_id))
      else ok item

  unfoldable pub from_message : Payload → Result Exception TranslationWorkItem
  from_message payload = do
    bundle ← index payload "document_bundle"
    document_bundle ← dict_of py bundle
    target_language ← index payload "target_language"
    provider_id ← index payload "provider_id"
    glossaries ← iterate py (get_or payload "glossary_ids" (list nil))
    metadata ← dict_of py (get_or payload "metadata" (dict (fields [])))
    job_id ← index payload "job_id"
    work_id ← index payload "work_id"
    let item : TranslationWorkItem = record {
      document_bundle = document_bundle;
      target_language = str py target_language;
      provider_id = str py provider_id;
      allow_nc_licensed = truthy (get_or payload "allow_nc_licensed" (flag false));
      certified = truthy (get_or payload "certified" (flag false));
      tenant_id = str py (get_or payload "tenant_id" (text "standalone"));
      glossary_ids = some (strings glossaries);
      instruction_set_id = get_or payload "instruction_set_id" null;
      metadata = metadata;
      job_id = some (str py job_id);
      work_id = some (str py work_id);
      source_language = some (str_or_empty (get_or payload "source_language" null));
    }
    validate item
    check_document_id (get_or payload "document_id" null) item
