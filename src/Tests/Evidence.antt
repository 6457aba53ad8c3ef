-- ===== src/Tests/Evidence.antt =====
-- edc_translation/custody.py at a concrete job.
use edctranslation_public.Prelude.{String, ◌≡◌, refl, true, [], ◌∷◌, string_eq}
use edctranslation_public.Prelude.Dict
use edctranslation_public.Prelude.Errors.{Result, ok, Exception}
use edctranslation_public.Json.{
  Value, null, flag, text, list, dict, Payload, fields, items, truthy, get, get_or, iterate,
}
use edctranslation_public.Jobs.Job.{TranslationJob}
use edctranslation_public.Custody.{
  artifacts_of, canonical_json_sha256, validate_translation_custody, evidence_bundle_for_job,
}
use edctranslation_public.Custody.Laws.{evidence-validate}
use edctranslation_public.Tests.Fixtures.{py}

abbrev artifact : String → Value
artifact id = dict (fields (("artifact_id", text id) ∷ []))

abbrev bundle : Payload
bundle =
    ("custody_chain_head", text "c0ffee")
    ∷ ("source_bundle_sha256", text "abc")
    ∷ (
      "artifact_manifest",
      dict (
          fields (
            (
              "artifacts",
              list (items (artifact "source_document_bundle" ∷ artifact "translation_bundle" ∷ [])),
            )
            ∷ [])),
    )
    ∷ []

abbrev digest : Value → Result Exception String
digest = canonical_json_sha256 (λ v. ok "{}") (λ s. "d1")

abbrev job : TranslationJob
job = record {
  job_id = "trjob_1";
  status = "succeeded";
  document_id = "doc";
  target_language = "fr";
  provider_id = "passthrough";
  created_at = "2026-01-01";
  updated_at = "2026-01-02";
  completed_at = text "2026-01-02";
  translation_bundle = dict (fields bundle);
  error = null;
  metadata = [];
}

abbrev report : Payload
report =
    ("valid", flag true)
    ∷ ("missing", list (items []))
    ∷ ("translation_bundle_sha256", text "d1")
    ∷ []

checked : validate_translation_custody py digest bundle ≡ ok report
unfolding validate_translation_custody artifacts_of get iterate truthy Dict.lookup string_eq
checked = refl

report-valid : get_or report "valid" null ≡ flag true
unfolding Dict.lookup string_eq
report-valid = refl

evidence-validate_example :
    (evidence : Payload) × (evidence_bundle_for_job py digest "2026-01-03" job ≡ ok evidence)
    × (get_or evidence "translation_bundle_sha256" null
        ≡ get_or report "translation_bundle_sha256" null)
    × (truthy (get_or evidence "custody_chain_head" null) ≡ true)
    × (truthy (get_or evidence "source_bundle_sha256" null) ≡ true)
evidence-validate_example =
    evidence-validate py digest "2026-01-03" job bundle report refl checked report-valid
