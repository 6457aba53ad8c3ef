-- ===== src/Jobs/LocalQueue/Outcome.antt =====
-- What a submission to the local queue leaves behind, over every lawful job store.
use edctranslation_public.Prelude.{
  String, ◌<>◌, ◌≡◌, true, some, List, arith, ◌==◌, string_eq, if◌then◌else◌,
}
use edctranslation_public.Prelude.Errors.{Result, ok, err}
use edctranslation_public.Json.{Payload, Runtime}
use edctranslation_public.Jobs.Job.{TranslationJob, Change, changed}
use edctranslation_public.Jobs.WorkItem.{TranslationWorkItem, document_id}
use edctranslation_public.Jobs.Repository.{
  JobStore, IsJobStore, new_job, running, succeeded, failed, create, mark_running, mark_succeeded,
  mark_failed,
}
use edctranslation_public.Jobs.LocalQueue.{Draw, run, submit}

module _ {ℓ} {E : Type ℓ} (py : Runtime) (S : JobStore) (L : IsJobStore S)
    (executor : TranslationWorkItem → Result E Payload) (error_mapper : E → Payload) where
  -- The changes that end the job: a success with its bundle, or a failure with its error.
  abbrev pub ending : TranslationWorkItem → String → List Change
  ending item now = elim (executor item) [
    | err e ↦ failed now (error_mapper e)
    | ok bundle ↦ succeeded now bundle
  ]

  -- The job that a submission leaves: created, started and ended.
  abbrev pub finished_job : Draw → TranslationWorkItem → String → TranslationJob
  finished_job draw item document = changed (ending item draw.finished) draw.finished (
      changed running draw.started (
        new_job draw.hex draw.created document item.target_language item.provider_id item.metadata))

  run_lem :
      (item : TranslationWorkItem) (id now : String) (s : S.State)
      → run py S executor error_mapper item id now s ≡ S.update id (ending item now) now s
  unfolding run mark_failed mark_succeeded
  run_lem item id now s = ground arith

  abbrev new : Draw → TranslationWorkItem → String → TranslationJob
  new draw item document =
      new_job draw.hex draw.created document item.target_language item.provider_id item.metadata

  abbrev after_write : Draw → TranslationWorkItem → String → S.State → S.State
  after_write draw item document s = (S.write (new draw item document) s).1

  abbrev after_start : Draw → TranslationWorkItem → String → S.State → S.State
  after_start draw item document s =
      (S.update ("trjob_" <> draw.hex) running draw.started (after_write draw item document s)).1

  -- The job is in the store once it is written, and is running once it is started.
  view-after_write :
      (draw : Draw) (item : TranslationWorkItem) (document : String) (s : S.State)
      → L.accepts ("trjob_" <> draw.hex) ≡ true
      → L.view (after_write draw item document s) ("trjob_" <> draw.hex)
        ≡ some (new draw item document)
  view-after_write draw item document s good =
      ground (arith, L.view-write (new draw item document) s ("trjob_" <> draw.hex) good)

  view-after_start :
      (draw : Draw) (item : TranslationWorkItem) (document : String) (s : S.State) (j : String)
      → L.IsSound s
      → L.accepts ("trjob_" <> draw.hex) ≡ true
      → L.view (after_start draw item document s) j ≡ (
          if j == ("trjob_" <> draw.hex)
          then some (changed running draw.started (new draw item document))
          else L.view s j)
  view-after_start draw item document s j sound good =
      let t = after_write draw item document s in
      let h =
        L.view-update ("trjob_" <> draw.hex) running draw.started (new draw item document) t j
          (L.write-IsSound _ s sound) (view-after_write draw item document s good) in
      ground (arith, h, L.view-write (new draw item document) s j good)

  submit_lem :
      (draw : Draw) (item : TranslationWorkItem) (document : String) (s : S.State)
      → L.IsSound s
      → L.accepts ("trjob_" <> draw.hex) ≡ true
      → document_id py item ≡ ok document
      → submit py S executor error_mapper draw item s
        ≡ S.update
            ("trjob_" <> draw.hex)
            (ending item draw.finished)
            draw.finished
            (after_start draw item document s)
  unfolding submit create mark_running
  submit_lem draw item document s sound good d =
      let started =
        L.update-result ("trjob_" <> draw.hex) running draw.started (new draw item document)
          (after_write draw item document s) (L.write-IsSound _ s sound)
          (view-after_write draw item document s good) in
      rw (d, submit, L.write-result (new draw item document) s good, started)
        (run_lem item _ draw.finished _)

  -- Where the item has a document id and the store accepts the drawn job id: the submission
  -- returns the finished job, the store holds it under that id, every other job is as before, and
  -- the store stays sound.
  pub submit-finished :
      (draw : Draw) (item : TranslationWorkItem) (document : String) (s : S.State)
      → L.IsSound s
      → L.accepts ("trjob_" <> draw.hex) ≡ true
      → document_id py item ≡ ok document
      → let (r, s') = submit py S executor error_mapper draw item s in
        (r ≡ ok (finished_job draw item document))
        × ((j : String)
            → L.view s' j ≡ (
                if j == ("trjob_" <> draw.hex)
                then some (finished_job draw item document)
                else L.view s j))
        × L.IsSound s'
  submit-finished draw item document s sound good d =
      let t = after_start draw item document s in
      let id : String = "trjob_" <> draw.hex in
      let t-IsSound : L.IsSound t =
        L.update-IsSound id running draw.started _ (L.write-IsSound _ s sound) in
      let old : L.view t id ≡ some (changed running draw.started (new draw item document)) =
        ground (arith, view-after_start draw item document s id sound good) in
      rw (submit_lem draw item document s sound good d) (
        L.update-result id (ending item draw.finished) draw.finished _ t t-IsSound old,
        λ j. ground (
          arith,
          L.view-update id (ending item draw.finished) draw.finished _ t j t-IsSound old,
          view-after_start draw item document s j sound good,
        ),
        L.update-IsSound id (ending item draw.finished) draw.finished t t-IsSound,
      )
