-- ===== src/Batch/Job.antt =====
-- edc_translation/text_batch.py: `TextFileBatchJob`, its dicts, and the log that it is printed as.
use edctranslation_public.Prelude.{
  ℕ, String, ◌<>◌, Option, none, some, List, [], ◌∷◌, ◌++◌, map, contains, string_eq, if◌then◌else◌,
}
use edctranslation_public.Prelude.Dict
use edctranslation_public.Json.{
  Value, null, flag, whole, pos, text, list, dict, Payload, fields, items, Runtime, str, get_or,
  truthy,
}
use edctranslation_public.Kafka.Text.{join}

abbrev pub succeeded : String
succeeded = "succeeded"

abbrev pub completed_with_errors : String
completed_with_errors = "completed_with_errors"

abbrev pub failed : String
failed = "failed"

abbrev pub terminal_batch_statuses : List String
terminal_batch_statuses = succeeded ∷ completed_with_errors ∷ failed ∷ []

pub record TextFileBatchJob : Type 0 where
  pub job_id : String
  pub status : String
  pub source_path : String
  pub output_dir : String
  pub source_language : String
  pub target_language : String
  pub provider_id : String
  pub created_at : String
  pub updated_at : String
  pub completed_at : Option String
  pub total_files : ℕ
  pub processed_files : ℕ
  pub failed_files : ℕ
  pub files : List Payload
  pub logs : List Payload
  pub settings : Payload
  pub error : Option Payload
  pub manifest_path : Option String

abbrev pub optional_text : Option String → Value
optional_text none = null
optional_text (some s) = text s

abbrev pub optional_dict : Option Payload → Value
optional_dict none = null
optional_dict (some d) = dict (fields d)

unfoldable pub status_payload : TextFileBatchJob → Payload
status_payload job =
    ("job_id", text job.job_id)
    ∷ ("status", text job.status)
    ∷ ("source_path", text job.source_path)
    ∷ ("output_dir", text job.output_dir)
    ∷ ("source_language", text job.source_language)
    ∷ ("target_language", text job.target_language)
    ∷ ("provider_id", text job.provider_id)
    ∷ ("created_at", text job.created_at)
    ∷ ("updated_at", text job.updated_at)
    ∷ ("completed_at", optional_text job.completed_at)
    ∷ ("total_files", whole (pos job.total_files))
    ∷ ("processed_files", whole (pos job.processed_files))
    ∷ ("failed_files", whole (pos job.failed_files))
    ∷ ("settings", dict (fields job.settings))
    ∷ ("manifest_path", optional_text job.manifest_path)
    ∷ ("error", optional_dict job.error)
    ∷ ("terminal", flag (contains terminal_batch_statuses job.status))
    ∷ []

abbrev pub dicts : List Payload → Value
dicts ds = list (items (map (λ d. dict (fields d)) ds))

unfoldable pub to_dict : TextFileBatchJob → Payload
to_dict job =
    Dict.insert "logs" (dicts job.logs) (Dict.insert "files" (dicts job.files) (status_payload job))

-- The entry that `append_log` appends.
abbrev pub with_text : String → Option String → Payload → Payload
with_text key none entry = entry
with_text key (some s) entry = entry ++ (key, text s) ∷ []

unfoldable pub log_entry : String → String → String → Option String → Option String → Payload
log_entry timestamp level message file_path output_path = with_text "output_path" output_path (
    with_text "file_path" file_path
      (("timestamp", text timestamp) ∷ ("level", text level) ∷ ("message", text message) ∷ []))

module _ (py : Runtime) (upper : String → String) where
  -- A part of a line that is there if the entry has the path.
  abbrev pub part : String → Value → String
  part mark v = if truthy v then mark <> str py v else ""

  unfoldable pub log_line : Payload → String
  log_line entry =
      str py (get_or entry "timestamp" null)
      <> " "
      <> upper (str py (get_or entry "level" null))
      <> " "
      <> str py (get_or entry "message" null)
      <> part " :: " (get_or entry "file_path" null)
      <> part " -> " (get_or entry "output_path" null)

  unfoldable pub format_batch_log : TextFileBatchJob → String
  format_batch_log job = elim job.logs [
    | [] ↦ ""
    | entry ∷ entries ↦ join "\n" (map log_line (entry ∷ entries)) <> "\n"
  ]
