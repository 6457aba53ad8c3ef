-- ===== src/Batch/Submit.antt =====
-- edc_translation/text_batch.py: a batch from its submission to its last log entry.
pub mod Laws
pub mod Outcome
use edctranslation_public.Prelude.{
  suc, String, ◌<>◌, Option, none, some, List, [], ◌∷◌, length, ◌==◌, nat_eq, string_eq, not,
  if◌then◌else◌,
}
use edctranslation_public.Json.{flag, text, list, Payload, texts, Runtime}
use edctranslation_public.Kafka.Text.{padded}
use edctranslation_public.Auth.{Texts}
use edctranslation_public.Batch.Act.{Act, BatchError, pure, raise, reading, attempt, ◌>>=◌, ◌>>◌}
use edctranslation_public.Batch.Job.{TextFileBatchJob, to_dict, status_payload}
use edctranslation_public.Batch.Repository.{
  get, create, new_job, mark_running, set_total, mark_succeeded, mark_completed_with_errors,
  mark_failed,
}
use edctranslation_public.Batch.Encoding.{Codecs, normalize_text_encoding, normalize_extensions}
use edctranslation_public.Batch.Files.{Disk, auto, discover_text_files}
use edctranslation_public.Batch.Run.{
  BatchSettings, Batch, Services, World, lifted, no_auto_target, no_files, error_text, on_disk,
  at_moment, log, translate_files,
}

-- The dict that the job keeps as its settings.
unfoldable pub settings_dict : BatchSettings → Payload
settings_dict s =
    ("input_encoding", text s.input_encoding)
    ∷ ("output_encoding", text s.output_encoding)
    ∷ ("recursive", flag s.recursive)
    ∷ ("file_extensions", list (texts s.file_extensions))
    ∷ ("allow_nc_licensed", flag s.allow_nc_licensed)
    ∷ ("certified", flag s.certified)
    ∷ ("tenant_id", text s.tenant_id)
    ∷ ("glossary_ids", list (texts s.glossary_ids))
    ∷ ("instruction_set_id", s.instruction_set_id)
    ∷ ("write_translation_bundles", flag s.write_translation_bundles)
    ∷ ("write_manifest", flag s.write_manifest)
    ∷ ("continue_on_error", flag s.continue_on_error)
    ∷ ("persistence", text "process_local_in_memory")
    ∷ (
      "language_detection",
      text
          "facebook-fasttext-lid optional via EDC_TRANSLATION_FASTTEXT_LID_MODEL, fallback heuristic",
    )
    ∷ []

module _ (py : Runtime) (library : Texts) (codecs : Codecs) {D : Type 0} (disk : Disk D)
    (services : Services) where
  unfoldable pub write_manifest : TextFileBatchJob → String → Act (World D) (Unit {0})
  write_manifest job path = do
    on_disk py library codecs disk services (disk.make_directory (disk.parent path))
    on_disk py library codecs disk services
        (disk.write_text path (services.dumps (to_dict job) <> "\n") "utf-8")

  abbrev pub manifest_path_of : Batch → Option String
  manifest_path_of batch =
      if batch.settings.write_manifest
      then some (disk.join_path batch.output_dir "translation-batch-report.json")
      else none

  unfoldable pub stored_job : Batch → Act (World D) TextFileBatchJob
  stored_job batch = reading (λ w. lifted (get batch.job_id w.jobs))

  unfoldable pub manifest_step : Batch → Option String → Act (World D) (Unit {0})
  manifest_step batch none = pure tt
  manifest_step batch (some path) = do job ← stored_job batch; write_manifest job path

  -- What follows the loop over the files.
  unfoldable pub conclude : Batch → Act (World D) (Unit {0})
  conclude batch = do
    job ← stored_job batch
    at_moment py library codecs disk services (
        if not (job.failed_files == 0)
        then mark_completed_with_errors batch.job_id (manifest_path_of batch)
        else mark_succeeded batch.job_id (manifest_path_of batch))
    log py library codecs disk services batch "Batch translation completed" "info" none none
    manifest_step batch (manifest_path_of batch)

  -- The files of the batch, with the job's total set to their number.
  unfoldable pub find_files : Batch → Act (World D) (List String)
  find_files batch = do
    files ← reading (λ w.
        discover_text_files library codecs disk batch.source_path batch.output_dir
          batch.settings.recursive (some batch.settings.file_extensions) w.disk)
    at_moment py library codecs disk services (set_total batch.job_id (length files))
    log py library codecs disk services batch
        ("Discovered " <> padded 1 (length files) <> " text file(s)") "info" none none
    pure files

  -- What follows once the files are found.
  unfoldable pub translate_found : Batch → List String → Act (World D) (Unit {0})
  translate_found batch [] = raise no_files
  translate_found batch (path ∷ paths) = do
    on_disk py library codecs disk services (disk.make_directory batch.output_dir)
    translate_files py library codecs disk services batch (path ∷ paths)
    conclude batch

  -- The body of the run's `try`.
  unfoldable pub run_files : Batch → Act (World D) (Unit {0})
  run_files batch =
      if batch.target_language == auto
      then raise no_auto_target
      else (do files ← find_files batch; translate_found batch files)

  -- The run's `except`.
  unfoldable pub fail : Batch → BatchError → Act (World D) (Unit {0})
  fail batch e = do
    let message = error_text py library codecs disk services e
    at_moment py library codecs disk services (
        mark_failed batch.job_id
          (("code", text "text_file_batch_failed") ∷ ("message", text message) ∷ []))
    log py library codecs disk services batch message "error" none none
    pure tt

  unfoldable pub run_text_file_batch_job : Batch → Act (World D) (Unit {0})
  run_text_file_batch_job batch = do
    at_moment py library codecs disk services (mark_running batch.job_id)
    log py library codecs disk services batch "Batch translation started" "info" none none
    attempt (run_files batch) (fail batch)

  -- `submit_text_file_batch_job` with `run_async=False`; a background run is the same run on a
  -- thread. `hex` is the fresh identifier, `asked` the settings as the caller gave them.
  unfoldable pub submit_text_file_batch_job :
      String
      → String
      → String
      → String
      → String
      → String
      → Option (List String)
      → BatchSettings
      → Act (World D) Payload
  submit_text_file_batch_job hex source_path output_dir source_language target_language provider_id
        extensions asked w =
      let settings : BatchSettings = record asked {
        input_encoding = normalize_text_encoding library asked.input_encoding;
        output_encoding = normalize_text_encoding library asked.output_encoding;
        file_extensions = normalize_extensions library extensions;
      } in
      let job =
        new_job hex (services.time w.tick) source_path output_dir source_language target_language
          provider_id (settings_dict settings) in
      let batch : Batch = record {
        job_id = job.job_id;
        source_path = source_path;
        output_dir = output_dir;
        source_language = source_language;
        target_language = target_language;
        provider_id = provider_id;
        settings = settings;
      } in
      let step : Act (World D) Payload = do
        run_text_file_batch_job batch
        stored ← stored_job batch
        pure (status_payload stored)
      in step (record w { jobs = (create job w.jobs).1; tick = suc w.tick })
