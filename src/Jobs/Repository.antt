-- ===== src/Jobs/Repository.antt =====
-- edc_translation/jobs.py: what a job repository offers, and what its clients may rely on. Both
-- local repositories spell `create` and the `mark_` methods alike, over their own `_update`.
use edctranslation_public.Prelude.{
  String, ◌<>◌, ◌≡◌, Bool, true, Option, none, some, List, [], ◌∷◌, ◌==◌, string_eq, if◌then◌else◌,
}
use edctranslation_public.Prelude.Errors.{Result, ok, err, Exception, key_error}
use edctranslation_public.Json
use edctranslation_public.Json.{Value, null, text, Payload}
use edctranslation_public.Jobs.Job.{
  TranslationJob, Change, set_status, set_updated_at, set_completed_at, set_translation_bundle,
  set_error, changed,
}

-- `write` stores a job under its id; `update id changes now` is `_update`.
pub record JobStore : Type 1 where
  pub State : Type 0
  pub write : TranslationJob → State → Result Exception (Unit {0}) × State
  pub update : String → List Change → String → State → Result Exception TranslationJob × State
  pub read : String → State → Result Exception TranslationJob

-- The jobs that a store holds, the ids that it can hold, and the states that its own methods
-- reach.
pub record IsJobStore (S : JobStore) : Type 1 where
  pub view : S.State → String → Option TranslationJob
  pub accepts : String → Bool
  pub IsSound : S.State → Type 0
  pub write-result :
      (job : TranslationJob) (s : S.State) → accepts job.job_id ≡ true → (S.write job s).0 ≡ ok tt
  pub view-write :
      (job : TranslationJob) (s : S.State) (j : String)
      → accepts job.job_id ≡ true
      → view (S.write job s).1 j ≡ (if j == job.job_id then some job else view s j)
  pub write-IsSound : (job : TranslationJob) (s : S.State) → IsSound s → IsSound (S.write job s).1
  pub update-result :
      (id : String) (cs : List Change) (now : String) (job : TranslationJob) (s : S.State)
      → IsSound s
      → view s id ≡ some job
      → (S.update id cs now s).0 ≡ ok (changed cs now job)
  pub view-update :
      (id : String) (cs : List Change) (now : String) (job : TranslationJob) (s : S.State)
      (j : String)
      → IsSound s
      → view s id ≡ some job
      → view (S.update id cs now s).1 j ≡ (if j == id then some (changed cs now job) else view s j)
  pub update-missing :
      (id : String) (cs : List Change) (now : String) (s : S.State)
      → IsSound s
      → view s id ≡ none
      → S.update id cs now s ≡ (err (key_error id), s)
  pub update-IsSound :
      (id : String) (cs : List Change) (now : String) (s : S.State)
      → IsSound s
      → IsSound (S.update id cs now s).1
  pub read-view :
      (id : String) (s : S.State)
      → IsSound s
      → S.read id s ≡ elim (view s id) [ none ↦ err (key_error id) | some job ↦ ok job ]

-- The job that `create` makes, from the fresh hex digits and the clock.
abbrev pub new_job : String → String → String → String → String → Payload → TranslationJob
new_job hex now document_id target_language provider_id metadata = record {
  job_id = "trjob_" <> hex;
  status = "queued";
  document_id = document_id;
  target_language = target_language;
  provider_id = provider_id;
  created_at = now;
  updated_at = now;
  completed_at = null;
  translation_bundle = null;
  error = null;
  metadata = metadata;
}

abbrev pub running : List Change
running = set_status "running" ∷ []

abbrev pub succeeded : String → Payload → List Change
succeeded now bundle =
    set_status "succeeded"
    ∷ set_updated_at now
    ∷ set_completed_at (text now)
    ∷ set_translation_bundle (Value.dict (Json.fields bundle))
    ∷ set_error null
    ∷ []

abbrev pub failed : String → Payload → List Change
failed now error =
    set_status "failed"
    ∷ set_updated_at now
    ∷ set_completed_at (text now)
    ∷ set_error (Value.dict (Json.fields error))
    ∷ []

module _ (S : JobStore) where
  unfoldable pub create :
      String
      → String
      → String
      → String
      → String
      → Payload
      → S.State
      → Result Exception TranslationJob × S.State
  create hex now document_id target_language provider_id metadata s =
      let job = new_job hex now document_id target_language provider_id metadata in
      let (r, s') = S.write job s in (elim r [ ok u ↦ ok job | err e ↦ err e ], s')

  unfoldable pub mark_running :
      String → String → S.State → Result Exception TranslationJob × S.State
  mark_running id now s = S.update id running now s

  unfoldable pub mark_succeeded :
      String → Payload → String → S.State → Result Exception TranslationJob × S.State
  mark_succeeded id bundle now s = S.update id (succeeded now bundle) now s

  unfoldable pub mark_failed :
      String → Payload → String → S.State → Result Exception TranslationJob × S.State
  mark_failed id error now s = S.update id (failed now error) now s
