-- ===== src/Batch/Run.antt =====
-- edc_translation/text_batch.py: `_run_text_file_batch_job`, which translates the files of a batch one
-- after the other and records each outcome in the job.
pub mod Laws
use edctranslation_public.Prelude.{
  ℕ, suc, String, ◌<>◌, Bool, Option, none, some, List, [], ◌∷◌, ◌==◌, nat_eq, string_eq,
  if◌then◌else◌,
}
use edctranslation_public.Prelude.Errors.{Result, ok, err, Exception, value_error}
use edctranslation_public.Json.{
  pos, Value, whole, float, text, dict, Payload, fields, Runtime, index,
}
use edctranslation_public.Auth.{Texts}
use edctranslation_public.Batch.Bundle.{bundle_to_text}
use edctranslation_public.Batch.Act.{
  BatchError, file_not_found, raised, foreign, Act, pure, raise, reading, attempt, ◌>>=◌, ◌>>◌,
}
use edctranslation_public.Batch.Job.{TextFileBatchJob, optional_text}
use edctranslation_public.Batch.Repository.{Jobs, Step, append_log, add_file_result}
use edctranslation_public.Batch.Encoding.{Codecs, certain}
use edctranslation_public.Batch.Files.{
  Disk, DecodedTextFile, auto, read_text_file, write_text_file, relative_output_path,
}

-- The settings that `submit_text_file_batch_job` gathers and the run reads.
pub record BatchSettings : Type 0 where
  pub input_encoding : String
  pub output_encoding : String
  pub recursive : Bool
  pub file_extensions : List String
  pub allow_nc_licensed : Bool
  pub certified : Bool
  pub tenant_id : String
  pub glossary_ids : List String
  pub instruction_set_id : Value
  pub write_translation_bundles : Bool
  pub write_manifest : Bool
  pub continue_on_error : Bool

pub record LanguageDetection : Type 0 where
  pub language : String
  pub confidence : ℕ
  pub provider : String
  pub model_id : Option String

-- What one run is about.
pub record Batch : Type 0 where
  pub job_id : String
  pub source_path : String
  pub output_dir : String
  pub source_language : String
  pub target_language : String
  pub provider_id : String
  pub settings : BatchSettings

-- The parts of the program that a run calls, the clock's readings one after the other, and how
-- exceptions and numbers are printed.
pub record Services : Type 0 where
  pub detect_language : String → LanguageDetection
  pub raw_text_to_document_bundle : String → String → String → Result BatchError Payload
  pub translate_document_bundle : Payload → Batch → Result BatchError Payload
  pub dumps : Payload → String
  pub time : ℕ → String
  pub exception_text : Exception → String
  pub two_digits : ℕ → String

-- The jobs, the disk, and how often the clock was read.
pub record World (D : Type 0) : Type 0 where
  pub jobs : Jobs
  pub disk : D
  pub tick : ℕ

-- Failures of one language's exceptions as those of a batch.
abbrev pub lifted {ℓ} : {A : Type ℓ} → Result Exception A → Result BatchError A
lifted (ok a) = ok a
lifted (err e) = err (raised e)

-- `target_language=auto is not supported for translation; select a target language`
abbrev pub no_auto_target : BatchError
no_auto_target =
    raised (
      value_error "target_language=auto is not supported for translation; select a target language")

abbrev pub no_files : BatchError
no_files = file_not_found "No matching text files were found"

-- The value under "language_detection" in a file's result.
abbrev pub detection_value : LanguageDetection → Value
detection_value d = dict (
    fields (
      ("language", text d.language)
      ∷ ("confidence", float d.confidence)
      ∷ ("provider", text d.provider)
      ∷ ("model_id", optional_text d.model_id)
      ∷ []))

-- What a language that the caller gave counts as.
abbrev pub given : String → LanguageDetection
given language = record {
  language = language;
  confidence = certain;
  provider = "caller";
  model_id = none;
}

abbrev pub failed_result : String → String → String → String → Payload
failed_result path relative output message =
    ("status", text "failed")
    ∷ ("source_path", text path)
    ∷ ("relative_path", text relative)
    ∷ ("output_path", text output)
    ∷ ("error", text message)
    ∷ []

abbrev pub succeeded_result :
    Batch
    → String
    → String
    → String
    → Option String
    → DecodedTextFile
    → String
    → LanguageDetection
    → Value
    → Payload
succeeded_result batch path relative output bundle_path decoded output_encoding detection schema =
    ("status", text "succeeded")
    ∷ ("source_path", text path)
    ∷ ("relative_path", text relative)
    ∷ ("output_path", text output)
    ∷ ("bundle_path", optional_text bundle_path)
    ∷ ("input_encoding", text decoded.encoding)
    ∷ ("input_encoding_confidence", float decoded.confidence)
    ∷ ("input_encoding_source", text decoded.detection_source)
    ∷ ("output_encoding", text output_encoding)
    ∷ ("requested_source_language", text batch.source_language)
    ∷ ("effective_source_language", text detection.language)
    ∷ ("target_language", text batch.target_language)
    ∷ ("language_detection", detection_value detection)
    ∷ ("source_sha256", text decoded.sha256)
    ∷ ("source_size_bytes", whole (pos decoded.size_bytes))
    ∷ ("translation_bundle_schema", schema)
    ∷ []

module _ (py : Runtime) (library : Texts) (codecs : Codecs) {D : Type 0} (disk : Disk D)
    (services : Services) where
  unfoldable pub error_text : BatchError → String
  error_text (file_not_found message) = message
  error_text (raised e) = services.exception_text e
  error_text (foreign message) = message

  -- A step on the disk.
  unfoldable pub on_disk : {A : Type 0} → Act D A → Act (World D) A
  on_disk m w = let (r, d) = m w.disk in (r, record w { disk = d })

  -- A step of the repository that reads the clock once.
  unfoldable pub at_moment : (String → Step) → Act (World D) TextFileBatchJob
  at_moment f w =
      let (r, jobs) = f (services.time w.tick) w.jobs in
      (lifted r, record w { jobs = jobs; tick = suc w.tick })

  -- One that reads it twice.
  unfoldable pub at_moments : (String → String → Step) → Act (World D) TextFileBatchJob
  at_moments f w =
      let (r, jobs) = f (services.time w.tick) (services.time (suc w.tick)) w.jobs in
      (lifted r, record w { jobs = jobs; tick = suc (suc w.tick) })

  abbrev pub log :
      Batch → String → String → Option String → Option String → Act (World D) TextFileBatchJob
  log batch message level file_path output_path =
      at_moments (append_log batch.job_id message level file_path output_path)

  -- The language of a file, which is logged where it was detected.
  unfoldable pub source_language :
      Batch → String → DecodedTextFile → Act (World D) LanguageDetection
  source_language batch path decoded =
      if batch.source_language == auto
      then (let d = services.detect_language decoded.content in
          do
            log batch
                ("Detected source language "
                  <> d.language
                  <> " ("
                  <> services.two_digits d.confidence
                  <> ", "
                  <> d.provider
                  <> ")")
                "info" (some path) none
            pure d)
      else pure (given batch.source_language)

  unfoldable pub bundle_path_of : Batch → String → Payload → Act (World D) (Option String)
  bundle_path_of batch output translated =
      let path = output <> ".translation-bundle.json" in
      if batch.settings.write_translation_bundles
      then (do
        on_disk (disk.write_text path (services.dumps translated <> "\n") "utf-8")
        pure (some path))
      else pure none

  -- The body of the loop's `try`, up to the result.
  unfoldable pub convert : Batch → String → String → String → Act (World D) Payload
  convert batch path relative output = do
    decoded ← on_disk (read_text_file library codecs disk path batch.settings.input_encoding)
    log batch ("Reading as " <> decoded.encoding) "info" (some path) none
    detection ← source_language batch path decoded
    bundle ←
        reading
          (λ w. services.raw_text_to_document_bundle decoded.content detection.language relative)
    translated ← reading (λ w. services.translate_document_bundle bundle batch)
    content ← reading (λ w. lifted (bundle_to_text py translated))
    encoding ← on_disk (
        write_text_file library codecs disk output content batch.settings.output_encoding
          decoded.encoding)
    bundle_path ← bundle_path_of batch output translated
    schema ← reading (λ w. lifted (index translated "schema_version"))
    pure (succeeded_result batch path relative output bundle_path decoded encoding detection schema)

  unfoldable pub record_success : Batch → String → String → Payload → Act (World D) (Unit {0})
  record_success batch path output result = do
    at_moment (add_file_result batch.job_id result)
    log batch "Converted file" "info" (some path) (some output)
    pure tt

  -- The body of the loop's `except`.
  unfoldable pub record_failure :
      Batch → String → String → String → BatchError → Act (World D) (Unit {0})
  record_failure batch path relative output e = do
    at_moment (add_file_result batch.job_id (failed_result path relative output (error_text e)))
    log batch (error_text e) "error" (some path) (some output)
    if batch.settings.continue_on_error then pure tt else raise e

  unfoldable pub translate_file : Batch → String → Act (World D) (Unit {0})
  translate_file batch path = do
    relative ← reading (λ w. relative_output_path library codecs disk path batch.source_path w.disk)
    let output = disk.join_path batch.output_dir relative
    attempt
        (do result ← convert batch path relative output; record_success batch path output result)
        (record_failure batch path relative output)

  unfoldable pub translate_files : Batch → List String → Act (World D) (Unit {0})
  translate_files batch [] = pure tt
  translate_files batch (path ∷ paths) = do translate_file batch path; translate_files batch paths
