-- ===== src/Custody/Laws.antt =====
-- What the evidence of a job with a checked bundle shows (edc_translation/custody.py).
use edctranslation_public.Prelude.{
  String, ◌≡◌, refl, sym, ap, ◌∙◌, Bool, true, false, List, [], ◌∷◌, string_eq,
}
use edctranslation_public.Prelude.Dict
use edctranslation_public.Prelude.Errors.{Result, ok, Exception, bind-ok, ok-injective}
use edctranslation_public.Json.{
  Value, null, flag, text, dict, Payload, fields, entries-fields, Runtime, iterate, truthy, get,
  get_or,
}
use edctranslation_public.Jobs.Job.{TranslationJob}
use edctranslation_public.Custody.{
  artifacts_of, artifact_ids, has_id, unless, missing_parts, is_empty, validate_translation_custody,
  evidence_of, evidence_bundle_for_job,
}

unless-empty :
    (present : Bool) (name : String) (missing : List String)
    → is_empty (unless present name missing) ≡ true
    → (present ≡ true) × (is_empty missing ≡ true)
unless-empty true name missing h = (refl, h)
unless-empty false name missing h = absurd (cc h)

-- A bundle with nothing missing.
missing_parts-empty :
    (bundle : Payload) (ids : List Value)
    → is_empty (missing_parts bundle ids) ≡ true
    → (truthy (get_or bundle "custody_chain_head" null) ≡ true)
      × (has_id "source_document_bundle" ids ≡ true)
      × (has_id "translation_bundle" ids ≡ true)
      × (truthy (get_or bundle "source_bundle_sha256" null) ≡ true)
missing_parts-empty bundle ids h =
    let (head, h1) = unless-empty _ _ _ h in
    let (source, h2) = unless-empty _ _ _ h1 in
    let (translation, h3) = unless-empty _ _ _ h2 in
    let (digest, h4) = unless-empty _ _ _ h3 in (head, source, translation, digest)

get-fields :
    (d : Payload) (key : String) (default : Value)
    → get (dict (fields d)) key default ≡ ok (get_or d key default)
unfolding get
get-fields d key default = rw (entries-fields d, get_or) refl

truthy-nonempty :
    (d : Payload) (key : String)
    → truthy (get_or d key null) ≡ true
    → truthy (dict (fields d)) ≡ true
unfolding truthy Dict.lookup
truthy-nonempty [] key h = absurd (cc h)
truthy-nonempty ((k, v) ∷ d) key h = refl

module _ (py : Runtime) (digest : Value → Result Exception String) where
  -- What is known of a bundle whose check gave a report that calls it valid.
  abbrev Checked : Payload → Payload → Type 0
  Checked bundle report =
      (artifacts : Value) × (sha256 : String) × (artifacts_of bundle ≡ ok artifacts)
      × (digest (dict (fields bundle)) ≡ ok sha256)
      × (get_or report "translation_bundle_sha256" null ≡ text sha256)
      × (truthy (get_or bundle "custody_chain_head" null) ≡ true)
      × (truthy (get_or bundle "source_bundle_sha256" null) ≡ true)

  validate-Checked :
      (bundle report : Payload)
      → validate_translation_custody py digest bundle ≡ ok report
      → get_or report "valid" null ≡ flag true
      → Checked bundle report
  unfolding validate_translation_custody Dict.lookup string_eq
  validate-Checked bundle report h v =
      let (found, f, h1) = bind-ok (artifacts_of bundle) _ report h in
      let (artifacts, g, h2) = bind-ok (iterate py found) _ report h1 in
      let (ids, i, h3) = bind-ok (artifact_ids artifacts) _ report h2 in
      let (sha256, d, h4) = bind-ok (digest (dict (fields bundle))) _ report h3 in
      let same = ok-injective _ report h4 in
      let valid : flag (is_empty (missing_parts bundle ids)) ≡ flag true =
        ap (λ r. get_or r "valid" null) same ∙ v in
      let (head, source, translation, origin) = missing_parts-empty bundle ids (cc valid) in
      (
        found,
        sha256,
        f,
        d,
        sym (ap (λ r. get_or r "translation_bundle_sha256" null) same),
        head,
        origin,
      )

  -- A job whose bundle the check calls valid has evidence, with the digest that the check reports
  -- and with a chain head and a digest of the source that are not empty.
  pub evidence-validate :
      (now : String) (job : TranslationJob) (bundle report : Payload)
      → job.translation_bundle ≡ dict (fields bundle)
      → validate_translation_custody py digest bundle ≡ ok report
      → get_or report "valid" null ≡ flag true
      → (evidence : Payload) × (evidence_bundle_for_job py digest now job ≡ ok evidence)
        × (get_or evidence "translation_bundle_sha256" null
            ≡ get_or report "translation_bundle_sha256" null)
        × (truthy (get_or evidence "custody_chain_head" null) ≡ true)
        × (truthy (get_or evidence "source_bundle_sha256" null) ≡ true)
  unfolding evidence_bundle_for_job artifacts_of Dict.lookup string_eq
  evidence-validate now job bundle report b h v =
      let (found, sha256, f, d, reported, head, source) = validate-Checked bundle report h v in
      (
        evidence_of now job (
          text sha256,
          get_or bundle "source_bundle_sha256" null,
          get_or bundle "custody_chain_head" null,
          found,
        ),
        rw
            (
              b,
              truthy-nonempty bundle "custody_chain_head" head,
              d,
              get-fields bundle "source_bundle_sha256" null,
              get-fields bundle "custody_chain_head" null,
              get-fields bundle "artifact_manifest" (dict (fields [])),
              f,
            )
            refl,
        sym reported,
        head,
        source,
      )
