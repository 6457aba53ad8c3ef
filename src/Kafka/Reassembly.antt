-- ===== src/Kafka/Reassembly.antt =====
-- edc_translation/kafka_backend.py: `reassembly_plan`.
pub mod Report
use edctranslation_public.Prelude.{
  String, Bool, true, false, ◌&&◌, Option, none, some, List, [], ◌∷◌, keep, ◌==◌, string_eq,
  if◌then◌else◌,
}
use edctranslation_public.Prelude.Dict
use edctranslation_public.Prelude.Dict.{Dict}
use edctranslation_public.Kafka.Text.{sorted}
use edctranslation_public.Kafka.Messages.{TranslationResultMessage}

pub record ReassemblyPlan : Type 0 where
  pub job_id : String
  pub expected_segments : List String
  pub received_segments : List String
  pub missing_segments : List String
  pub failed_segments : List String
  pub ready : Bool

-- One turn of the comprehension `by_segment`, and all of them.
unfoldable pub collect_one :
    String
    → TranslationResultMessage
    → Dict String TranslationResultMessage
    → Dict String TranslationResultMessage
collect_one job r d = elim r.segment_id [
  | none ↦ d
  | some s ↦ if r.job_id == job then Dict.insert s r d else d
]

unfoldable pub collect :
    String
    → List TranslationResultMessage
    → Dict String TranslationResultMessage
    → Dict String TranslationResultMessage
collect job [] d = d
collect job (r ∷ rs) d = collect job rs (collect_one job r d)

abbrev pub absent : Option TranslationResultMessage → Bool
absent none = true
absent (some r) = false

abbrev pub is_empty : List String → Bool
is_empty [] = true
is_empty (s ∷ ss) = false

abbrev pub same : String → String
same s = s

unfoldable pub failed_ids : Dict String TranslationResultMessage → List String
failed_ids [] = []
failed_ids ((id, r) ∷ d) = if r.status == "succeeded" then failed_ids d else id ∷ failed_ids d

unfoldable pub reassembly_plan :
    String → List String → List TranslationResultMessage → ReassemblyPlan
reassembly_plan job expected results =
    let by_segment = collect job results [] in
    let missing = keep (λ id. absent (Dict.lookup id by_segment)) expected in
    let failed = sorted same (failed_ids by_segment) in
    record {
      job_id = job;
      expected_segments = expected;
      received_segments = sorted same (Dict.keys by_segment);
      missing_segments = missing;
      failed_segments = failed;
      ready = is_empty missing && is_empty failed;
    }
