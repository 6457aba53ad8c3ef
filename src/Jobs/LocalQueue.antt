-- ===== src/Jobs/LocalQueue.antt =====
-- edc_translation/jobs.py: `LocalSynchronousWorkQueue`, which runs a submitted item at once.
pub mod Outcome
use edctranslation_public.Prelude.{String}
use edctranslation_public.Prelude.Errors.{Result, ok, err, Exception}
use edctranslation_public.Json.{Payload, Runtime}
use edctranslation_public.Jobs.Job.{TranslationJob}
use edctranslation_public.Jobs.WorkItem.{TranslationWorkItem, document_id}
use edctranslation_public.Jobs.Repository.{
  JobStore, create, mark_running, mark_succeeded, mark_failed,
}

-- What the environment supplies to one submission: the fresh hex digits, and the clock at the
-- three writes.
pub record Draw : Type 0 where
  pub hex : String
  pub created : String
  pub started : String
  pub finished : String

-- `executor` returns a bundle or raises an `E`, and `error_mapper` turns the exception into the
-- error of the job.
module _ {ℓ} {E : Type ℓ} (py : Runtime) (S : JobStore)
    (executor : TranslationWorkItem → Result E Payload) (error_mapper : E → Payload) where
  -- The `try` statement and what follows it.
  unfoldable pub run :
      TranslationWorkItem → String → String → S.State → Result Exception TranslationJob × S.State
  run item id now s = elim (executor item) [
    | err e ↦ mark_failed S id (error_mapper e) now s
    | ok bundle ↦ mark_succeeded S id bundle now s
  ]

  unfoldable pub submit :
      Draw → TranslationWorkItem → S.State → Result Exception TranslationJob × S.State
  unfolding run
  submit draw item s = elim (document_id py item) [
    | err e ↦ (err e, s)
    | ok document ↦
        let (created, s₁) =
          create S draw.hex draw.created document item.target_language item.provider_id
            item.metadata s in
        elim created [
          | err e ↦ (err e, s₁)
          | ok job ↦
              let (started, s₂) = mark_running S job.job_id draw.started s₁ in
              elim started [ err e ↦ (err e, s₂) | ok job' ↦ run item job.job_id draw.finished s₂ ]
        ]
  ]
