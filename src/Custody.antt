-- ===== src/Custody.antt =====
-- edc_translation/custody.py: the evidence of a job, and the check of a bundle's custody. The digest
-- of a dict's canonical JSON is a parameter: its writer and its hash are libraries.
pub mod Laws
use edctranslation_public.Prelude.{
  String, Bool, true, false, Option, none, some, List, [], ◌∷◌, ◌++◌, ◌==◌, string_eq, ◌||◌,
  if◌then◌else◌,
}
use edctranslation_public.Prelude.Dict
use edctranslation_public.Prelude.Errors.{Result, ok, err, ◌>>=◌, Exception, type_error}
use edctranslation_public.Json.{
  Value, null, flag, text, list, dict, Payload, entries, fields, texts, nil, Runtime, iterate,
  truthy, get, get_or,
}
use edctranslation_public.Jobs.Job.{TranslationJob}

-- `bundle.get("artifact_manifest", {}).get("artifacts", [])`
unfoldable pub artifacts_of : Payload → Result Exception Value
artifacts_of bundle =
    get (get_or bundle "artifact_manifest" (dict (fields []))) "artifacts" (list nil)

abbrev pub is_hashable : Value → Bool
is_hashable (list vs) = false
is_hashable (dict fs) = false
is_hashable _ = true

abbrev pub add_id : Value → Result Exception (List Value) → Result Exception (List Value)
add_id id (err e) = err e
add_id id (ok ids) = ok (id ∷ ids)

-- `{artifact.get("artifact_id") for artifact in artifacts if isinstance(artifact, dict)}`, which is
-- only asked for its members. A list or a dict is not hashable.
abbrev pub artifact_ids : List Value → Result Exception (List Value)
artifact_ids [] = ok []
artifact_ids (dict fs ∷ artifacts) =
    let id = get_or (entries fs) "artifact_id" null in
    let ids = artifact_ids artifacts in if is_hashable id then add_id id ids else err type_error
artifact_ids (_ ∷ artifacts) = artifact_ids artifacts

abbrev pub is_text : String → Value → Bool
is_text s (text t) = s == t
is_text s _ = false

-- `s in artifact_ids`
abbrev pub has_id : String → List Value → Bool
has_id s [] = false
has_id s (v ∷ vs) = is_text s v || has_id s vs

abbrev pub unless : Bool → String → List String → List String
unless present name missing = if present then missing else name ∷ missing

abbrev pub missing_parts : Payload → List Value → List String
missing_parts bundle ids =
    unless (truthy (get_or bundle "custody_chain_head" null)) "custody_chain_head" (
      unless (has_id "source_document_bundle" ids) "artifact_manifest.source_document_bundle" (
        unless (has_id "translation_bundle" ids) "artifact_manifest.translation_bundle"
          (unless (truthy (get_or bundle "source_bundle_sha256" null)) "source_bundle_sha256" [])))

abbrev pub is_empty : List String → Bool
is_empty [] = true
is_empty (s ∷ ss) = false

-- The dict of the evidence, from the bundle's digest, source digest, chain head and artifacts.
abbrev pub evidence_of : String → TranslationJob → Value × Value × Value × Value → Payload
evidence_of now job (sha256, source, head, artifacts) =
    ("schema_version", text "translation-evidence-bundle-v1")
    ∷ ("job_id", text job.job_id)
    ∷ ("document_id", text job.document_id)
    ∷ ("status", text job.status)
    ∷ ("created_at", text job.created_at)
    ∷ ("completed_at", job.completed_at)
    ∷ ("generated_at", text now)
    ∷ ("source_bundle_sha256", source)
    ∷ ("translation_bundle_sha256", sha256)
    ∷ ("custody_chain_head", head)
    ∷ ("artifacts", artifacts)
    ∷ ("job_metadata", dict (fields job.metadata))
    ∷ []

-- Of edc_translation/contracts.py: the library's `json.dumps` with sorted keys, then its hash.
abbrev pub canonical_json_sha256 :
    (Value → Result Exception String) → (String → String) → Value → Result Exception String
canonical_json_sha256 dumps sha256 payload = do canonical ← dumps payload; ok (sha256 canonical)

-- `digest` is `canonical_json_sha256` of a library.
module _ (py : Runtime) (digest : Value → Result Exception String) where
  unfoldable pub validate_translation_custody : Payload → Result Exception Payload
  validate_translation_custody bundle = do
    found ← artifacts_of bundle
    artifacts ← iterate py found
    ids ← artifact_ids artifacts
    let missing = missing_parts bundle ids
    sha256 ← digest (dict (fields bundle))
    ok (
        ("valid", flag (is_empty missing))
        ∷ ("missing", list (texts missing))
        ∷ ("translation_bundle_sha256", text sha256)
        ∷ [])

  -- What the evidence takes from the bundle, where there is one.
  abbrev pub bundle_evidence : Value → Result Exception (Value × Value × Value × Value)
  bundle_evidence bundle =
      if truthy bundle
      then (do
        sha256 ← digest bundle
        source ← get bundle "source_bundle_sha256" null
        head ← get bundle "custody_chain_head" null
        manifest ← get bundle "artifact_manifest" (dict (fields []))
        artifacts ← get manifest "artifacts" (list nil)
        ok (text sha256, source, head, artifacts))
      else ok (null, null, null, list nil)

  unfoldable pub evidence_bundle_for_job : String → TranslationJob → Result Exception Payload
  evidence_bundle_for_job now job = do
    found ← bundle_evidence job.translation_bundle
    ok (evidence_of now job found)
