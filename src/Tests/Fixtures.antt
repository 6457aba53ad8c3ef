-- ===== src/Tests/Fixtures.antt =====
-- The items, rows and settings that the concrete runs share.
use edctranslation_public.Prelude.{String, Bool, false, none, some, refl, [], ◌∷◌}
use edctranslation_public.Prelude.Errors.{ok, err, type_error}
use edctranslation_public.Jobs.Files.{Codec}
use edctranslation_public.Json.{pos, null, text, Runtime, Payload}
use edctranslation_public.Jobs.WorkItem.{TranslationWorkItem}
use edctranslation_public.Worker.Results.{TranslationWorkerResult}
use edctranslation_public.Postgres.Tables.{queued, running, JobRow, WorkRow, Database}
use edctranslation_public.Postgres.Queue.{PostgresQueueSettings}

abbrev pub py : Runtime
py = record {
  str_other = λ v. "other";
  dict_other = λ v. err type_error;
  iterate_other = λ v. err type_error;
  int_other = λ v. err type_error;
}

abbrev pub item : TranslationWorkItem
item = record {
  document_bundle = ("document_id", text "d1") ∷ [];
  target_language = "fr";
  provider_id = "local";
  allow_nc_licensed = false;
  certified = false;
  tenant_id = "standalone";
  glossary_ids = none;
  instruction_set_id = null;
  metadata = [];
  job_id = some "j1";
  work_id = some "w1";
  source_language = some "en";
}

-- A second item, whose translation fails.
abbrev pub bad_item : TranslationWorkItem
bad_item = record item { job_id = some "j2"; work_id = some "w2"; target_language = "xx" }

abbrev pub bundle : Payload
bundle = ("schema", text "translation-bundle-v1") ∷ []

abbrev pub success : TranslationWorkerResult
success = record {
  job_id = "j1";
  work_id = "w1";
  document_id = "d1";
  status = "succeeded";
  target_language = "fr";
  provider_id = "local";
  tenant_id = "standalone";
  translation_bundle = some bundle;
  error = none;
  metadata = [];
}

abbrev pub failure : TranslationWorkerResult
failure = record success {
  status = "failed";
  translation_bundle = none;
  error = some (("code", text "translation_worker_failed") ∷ []);
}

abbrev pub settings : PostgresQueueSettings
settings = record {
  worker_id = "worker-a";
  max_attempts = 3;
  retry_delay_seconds = 60;
  visibility_timeout_seconds = 300;
}

abbrev pub job : JobRow
job = record {
  job_id = "j1";
  document_id = "d1";
  status = running;
  target_language = "fr";
  provider_id = "local";
  tenant_id = "standalone";
  created_at = 1;
  updated_at = 1;
  completed_at = none;
  metadata = [];
  error = null;
  result_ref = none;
}

-- A row that `worker-a` holds since 5, on its first attempt, and on its last.
abbrev pub row : WorkRow
row = record {
  work_id = "w1";
  job_id = "j1";
  status = running;
  priority = pos 0;
  available_at = 1;
  locked_by = some "worker-a";
  locked_at = some 5;
  attempts = 1;
  payload = [];
  last_error = null;
  created_at = 1;
  updated_at = 5;
}

abbrev pub last_row : WorkRow
last_row = record row { attempts = 3 }

-- A row that waits.
abbrev pub waiting_row : WorkRow
waiting_row = record row {
  work_id = "w2";
  job_id = "j2";
  status = queued;
  locked_by = none;
  locked_at = none;
  attempts = 0;
}

abbrev pub db : Database
db = record { jobs = job ∷ []; queue = row ∷ waiting_row ∷ []; results = []; dead_letters = [] }

abbrev pub last_db : Database
last_db = record db { queue = last_row ∷ waiting_row ∷ [] }

abbrev pub idle : String → Bool
idle id = false

-- A coding of the files that keeps the dict itself.
abbrev pub codec : Codec
codec = record {
  Text = Payload;
  dumps = λ p. p;
  loads = λ p. ok p;
  lower = λ s. s;
  loads-dumps = λ p. refl;
}
