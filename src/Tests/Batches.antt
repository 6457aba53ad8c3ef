-- ===== src/Tests/Batches.antt =====
-- A batch of two files, of which one cannot be read.
use edctranslation_public.Prelude.{
  String, ◌<>◌, ◌≡◌, refl, true, false, none, some, List, [], ◌∷◌, ◌==◌, string_eq, if◌then◌else◌,
}
use edctranslation_public.Prelude.Dict
use edctranslation_public.Prelude.Errors.{ok, err}
use edctranslation_public.Json.{null, text, pos, whole, list, dict, fields, items, Payload}
use edctranslation_public.Batch.Act.{foreign}
use edctranslation_public.Batch.Job.{TextFileBatchJob}
use edctranslation_public.Batch.Repository.{new_job}
use edctranslation_public.Batch.Counted.{At}
use edctranslation_public.Batch.Encoding.{Codecs}
use edctranslation_public.Batch.Files.{Disk}
use edctranslation_public.Batch.Run.{Batch, BatchSettings, Services, World}
use edctranslation_public.Batch.Submit.{run_text_file_batch_job, settings_dict}
use edctranslation_public.Batch.Submit.Laws.{Ended}
use edctranslation_public.Batch.Submit.Outcome.{run_text_file_batch_job-Ended}
use edctranslation_public.Tests.Fixtures.{py}
use edctranslation_public.Tests.Crypto.{texts}

abbrev broken : String
broken = "in/b.txt"

-- The state of the disk is what was written to it.
abbrev disk : Disk (List (String × String))
disk = record {
  exists = λ path d. true;
  is_file = λ path d. path == "in/a.txt";
  glob = λ path pattern d. "in/a.txt" ∷ broken ∷ [];
  inside = λ path output d. some false;
  suffix = λ path. ".txt";
  name = λ path. path;
  parent = λ path. "out";
  join_path = λ root path. root <> "/" <> path;
  relative_to = λ path root. ok path;
  sorted_paths = λ paths. paths;
  read_bytes =
      λ path d. if path == broken then err (foreign "unreadable") else ok (b'h' ∷ b'i' ∷ []);
  decode = λ encoding raw. ok "hi";
  sha256 = λ raw. "digest";
  make_directory = λ path d. (ok tt, d);
  write_text = λ path content encoding d. (ok tt, (path, content) ∷ d);
}

abbrev codecs : Codecs
codecs = record { decodes = λ encoding raw. true; best_guess = λ raw. none }

abbrev span : Payload
span =
    ("page_number", whole (pos 1)) ∷ ("span_id", text "s1") ∷ ("translated_text", text "salut") ∷ []

abbrev services : Services
services = record {
  detect_language =
      λ s. record { language = "en"; confidence = 0; provider = "heuristic"; model_id = none };
  raw_text_to_document_bundle = λ content language name. ok [];
  translate_document_bundle = λ bundle batch. ok (
      ("schema_version", text "translation-bundle-v1")
      ∷ ("translated_spans", list (items (dict (fields span) ∷ [])))
      ∷ []);
  dumps = λ p. "{}";
  time = λ n. "now";
  exception_text = λ e. "error";
  two_digits = λ n. "0.00";
}

abbrev settings : BatchSettings
settings = record {
  input_encoding = "auto";
  output_encoding = "utf-8";
  recursive = true;
  file_extensions = ".txt" ∷ [];
  allow_nc_licensed = false;
  certified = false;
  tenant_id = "standalone";
  glossary_ids = [];
  instruction_set_id = null;
  write_translation_bundles = true;
  write_manifest = true;
  continue_on_error = true;
}

abbrev batch : Batch
batch = record {
  job_id = "tfjob_1";
  source_path = "in";
  output_dir = "out";
  source_language = "auto";
  target_language = "fr";
  provider_id = "local";
  settings = settings;
}

abbrev fresh : TextFileBatchJob
fresh = new_job "1" "now" "in" "out" "auto" "fr" "local" (settings_dict settings)

abbrev world : World (List (String × String))
world = record { jobs = ("tfjob_1", fresh) ∷ []; disk = []; tick = 1 }

fresh-stored : Dict.lookup batch.job_id world.jobs ≡ some fresh
unfolding Dict.lookup string_eq
fresh-stored = refl

no_files : fresh.files ≡ []
unfolding new_job
no_files = refl

none_processed : fresh.processed_files ≡ 0
unfolding new_job
none_processed = refl

none_failed : fresh.failed_files ≡ 0
unfolding new_job
none_failed = refl

run_text_file_batch_job-Ended_example :
    (let (r, w) = run_text_file_batch_job py texts codecs disk services batch world in
      (r ≡ ok tt) × At batch.job_id world.jobs Ended w.jobs)
run_text_file_batch_job-Ended_example =
    run_text_file_batch_job-Ended py texts codecs disk services batch fresh world fresh-stored
      no_files none_processed none_failed
