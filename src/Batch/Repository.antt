-- ===== src/Batch/Repository.antt =====
-- edc_translation/text_batch.py: `TextFileBatchRepository`, a dict of jobs under a lock. Each method
-- holds the lock while it changes a job, so a method is one step.
use edctranslation_public.Prelude.{
  ℕ, suc, String, ◌<>◌, Bool, true, false, Option, none, some, List, [], ◌∷◌, ◌++◌, ◌==◌, string_eq,
  not, if◌then◌else◌,
}
use edctranslation_public.Prelude.Dict
use edctranslation_public.Prelude.Dict.{Dict}
use edctranslation_public.Prelude.Errors.{Result, ok, err, Exception, key_error}
use edctranslation_public.Json.{Value, null, text, Payload, get_or}
use edctranslation_public.Batch.Job.{
  TextFileBatchJob, succeeded, completed_with_errors, failed, log_entry,
}

abbrev pub Jobs : Type 0
Jobs = Dict String TextFileBatchJob

-- A keyword argument of `_update`.
pub data Change : Type 0 where
  set_status : String → Change
  set_total_files : ℕ → Change
  set_updated_at : String → Change
  set_completed_at : String → Change
  set_manifest_path : Option String → Change
  set_error : Option Payload → Change

abbrev pub set_attribute : Change → TextFileBatchJob → TextFileBatchJob
set_attribute (set_status s) job = record job { status = s }
set_attribute (set_total_files n) job = record job { total_files = n }
set_attribute (set_updated_at s) job = record job { updated_at = s }
set_attribute (set_completed_at s) job = record job { completed_at = some s }
set_attribute (set_manifest_path p) job = record job { manifest_path = p }
set_attribute (set_error e) job = record job { error = e }

abbrev pub set_attributes : List Change → TextFileBatchJob → TextFileBatchJob
set_attributes [] job = job
set_attributes (c ∷ cs) job = set_attributes cs (set_attribute c job)

abbrev pub stamps : List Change → Bool
stamps [] = false
stamps (set_updated_at s ∷ cs) = true
stamps (c ∷ cs) = stamps cs

abbrev pub changed : List Change → String → TextFileBatchJob → TextFileBatchJob
changed cs now job = elim (stamps cs) [
  | true ↦ set_attributes cs job
  | false ↦ record (set_attributes cs job) { updated_at = now }
]

unfoldable pub new_job :
    String → String → String → String → String → String → String → Payload → TextFileBatchJob
new_job hex now source_path output_dir source_language target_language provider_id settings =
    record {
      job_id = "tfjob_" <> hex;
      status = "queued";
      source_path = source_path;
      output_dir = output_dir;
      source_language = source_language;
      target_language = target_language;
      provider_id = provider_id;
      created_at = now;
      updated_at = now;
      completed_at = none;
      total_files = 0;
      processed_files = 0;
      failed_files = 0;
      files = [];
      logs = [];
      settings = settings;
      error = none;
      manifest_path = none;
    }

unfoldable pub create : TextFileBatchJob → Jobs → TextFileBatchJob × Jobs
create job jobs = (job, Dict.insert job.job_id job jobs)

unfoldable pub get : String → Jobs → Result Exception TextFileBatchJob
get id jobs = elim (Dict.lookup id jobs) [ none ↦ err (key_error id) | some job ↦ ok job ]

unfoldable pub list : Jobs → List TextFileBatchJob
list jobs = Dict.values jobs

unfoldable pub clear : Jobs → Jobs
clear jobs = []

-- `job = self._jobs[job_id]`, changed in place.
unfoldable pub change :
    String → (TextFileBatchJob → TextFileBatchJob) → Jobs → Result Exception TextFileBatchJob × Jobs
change id f jobs = elim (Dict.lookup id jobs) [
  | none ↦ (err (key_error id), jobs)
  | some job ↦ (ok (f job), Dict.insert id (f job) jobs)
]

abbrev pub running_changes : List Change
running_changes = set_status "running" ∷ []

abbrev pub ended_changes : String → String → Option String → List Change
ended_changes status now manifest_path =
    set_status status
    ∷ set_updated_at now
    ∷ set_completed_at now
    ∷ set_manifest_path manifest_path
    ∷ set_error none
    ∷ []

abbrev pub failed_changes : String → Payload → List Change
failed_changes now error =
    set_status failed ∷ set_updated_at now ∷ set_completed_at now ∷ set_error (some error) ∷ []

abbrev pub logged : Payload → String → TextFileBatchJob → TextFileBatchJob
logged entry now job = record job { logs = job.logs ++ entry ∷ []; updated_at = now }

abbrev is_text_succeeded : Value → Bool
is_text_succeeded (text s) = s == succeeded
is_text_succeeded _ = false

-- `result["status"] == "succeeded"`
abbrev pub is_succeeded : Payload → Bool
is_succeeded result = is_text_succeeded (get_or result "status" null)

abbrev pub with_result : Payload → String → TextFileBatchJob → TextFileBatchJob
with_result result now job = record job {
  files = job.files ++ result ∷ [];
  processed_files = suc job.processed_files;
  failed_files = if not (is_succeeded result) then suc job.failed_files else job.failed_files;
  updated_at = now;
}

-- A method's step on the dict of jobs.
abbrev pub Step : Type 0
Step = Jobs → Result Exception TextFileBatchJob × Jobs

unfoldable pub update : String → List Change → String → Step
update id cs now = change id (changed cs now)

unfoldable pub mark_running : String → String → Step
mark_running id now = update id running_changes now

unfoldable pub set_total : String → ℕ → String → Step
set_total id total now = update id (set_total_files total ∷ []) now

unfoldable pub append_log :
    String → String → String → Option String → Option String → String → String → Step
append_log id message level file_path output_path timestamp now =
    change id (logged (log_entry timestamp level message file_path output_path) now)

unfoldable pub add_file_result : String → Payload → String → Step
add_file_result id result now = change id (with_result result now)

unfoldable pub mark_succeeded : String → Option String → String → Step
mark_succeeded id manifest_path now = update id (ended_changes succeeded now manifest_path) now

unfoldable pub mark_completed_with_errors : String → Option String → String → Step
mark_completed_with_errors id manifest_path now =
    update id (ended_changes completed_with_errors now manifest_path) now

unfoldable pub mark_failed : String → Payload → String → Step
mark_failed id error now = update id (failed_changes now error) now
