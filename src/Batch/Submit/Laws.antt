-- ===== src/Batch/Submit/Laws.antt =====
-- How a batch ends: in a terminal status that its counters bear out.
use edctranslation_public.Prelude.{
  ℕ, String, ◌≡◌, ◌≢◌, refl, ap, sym, ◌∙◌, Option, none, some, [], ◌∷◌, length, ◌==◌, nat_eq,
  string_eq, not, if◌then◌else◌, ◌⊎◌, inl, inr, Bool-cases, ==_iff,
}
use edctranslation_public.Prelude.Dict
use edctranslation_public.Prelude.Errors.{ok}
use edctranslation_public.Json.{Runtime}
use edctranslation_public.Auth.{Texts}
use edctranslation_public.Batch.Act.{reading, pure}
use edctranslation_public.Batch.Act.Laws.{After, bind-After, weaken-After}
use edctranslation_public.Batch.Job.{TextFileBatchJob, succeeded, completed_with_errors, failed}
use edctranslation_public.Batch.Repository.{
  Jobs, get, update, changed, ended_changes, set_total_files, set_total, mark_succeeded,
  mark_completed_with_errors,
}
use edctranslation_public.Batch.Encoding.{Codecs}
use edctranslation_public.Batch.Files.{Disk}
use edctranslation_public.Batch.Run.{Batch, Services, World, at_moment}
use edctranslation_public.Batch.Counted.{Counted, At-weaken}
use edctranslation_public.Batch.Run.Laws.{
  Stage, IsLogged, In, Never, Steady, at_moment-After, log-After, log-Steady, reading-Steady,
  on_disk-Steady, pure-Steady, bind-Steady,
}
use edctranslation_public.Batch.Submit.{
  stored_job, manifest_path_of, manifest_step, write_manifest, conclude, find_files,
}

-- All files were processed, and the status says whether one of them failed.
abbrev pub Completed : TextFileBatchJob → Type 0
Completed job =
    Counted job
    × (job.processed_files ≡ job.total_files)
    × (((job.status ≡ succeeded) × (job.failed_files ≡ 0))
        ⊎ ((job.status ≡ completed_with_errors) × (job.failed_files ≢ 0)))

abbrev pub Ended : TextFileBatchJob → Type 0
Ended job = Completed job ⊎ (Counted job × (job.status ≡ failed))

module _ (py : Runtime) (library : Texts) (codecs : Codecs) {D : Type 0} (disk : Disk D)
    (services : Services) (id : String) (old : Jobs) where
  abbrev Here : (TextFileBatchJob → Type 0) → World D → Type 0
  Here = In py library codecs disk services id old

  abbrev Impossible : World D → Type 0
  Impossible = Never py library codecs disk services id old

  get-found :
      (key : String) (jobs : Jobs) (job : TextFileBatchJob)
      → Dict.lookup key jobs ≡ some job
      → get key jobs ≡ ok job
  unfolding get
  get-found key jobs job h = rw (h, get) refl

  stored_job-After :
      (P : TextFileBatchJob → Type 0) (batch : Batch) (w : World D)
      → batch.job_id ≡ id
      → Here P w
      → After
          (stored_job py library codecs disk services batch w)
          (λ job. Here (λ j. P j × (j ≡ job)))
          Impossible
  unfolding stored_job reading
  stored_job-After P batch w e a =
      rw (e, get-found id w.jobs a.job a.found)
        (record { job = a.job; found = a.found; holds = (a.holds, refl); frame = a.frame })

  manifest_step-Steady :
      (P : TextFileBatchJob → Type 0) (batch : Batch) (path : Option String)
      → Steady py library codecs disk services id old P
          (manifest_step py library codecs disk services batch path)
  unfolding manifest_step stored_job write_manifest
  manifest_step-Steady P batch none = pure-Steady py library codecs disk services id old P _
  manifest_step-Steady P batch (some path) =
      bind-Steady py library codecs disk services id old P _ _
        (reading-Steady py library codecs disk services id old P _)
        λ job.
          bind-Steady py library codecs disk services id old P _ _
            (on_disk-Steady py library codecs disk services id old P _)
            λ u. on_disk-Steady py library codecs disk services id old P _

  -- The mark that the counters call for.
  mark-After :
      (batch : Batch) (job : TextFileBatchJob) (total : ℕ) (w : World D)
      → batch.job_id ≡ id
      → Here (λ j. Stage total total j × (j ≡ job)) w
      → After
          (at_moment py library codecs disk services
            (if not (job.failed_files == 0)
              then mark_completed_with_errors batch.job_id
                  (manifest_path_of py library codecs disk services batch)
              else mark_succeeded batch.job_id
                  (manifest_path_of py library codecs disk services batch))
            w)
          (λ _. Here Completed)
          Impossible
  unfolding mark_completed_with_errors mark_succeeded update
  mark-After batch job total w e a = elim (Bool-cases (job.failed_files == 0)) [
    | inl y ↦
        rw (y, e)
          (at_moment-After py library codecs disk services id old _ Completed
            (λ now.
              changed
                (ended_changes succeeded now
                  (manifest_path_of py library codecs disk services batch))
                now)
            w
            (λ now j ((c, p, t), s). (
              c,
              p ∙ sym t,
              inl (refl, ap (λ x. x.failed_files) s ∙ (==_iff job.failed_files 0).0 y),
            ))
            a)
    | inr n ↦
        rw (n, e)
          (at_moment-After py library codecs disk services id old _ Completed
            (λ now.
              changed
                (ended_changes completed_with_errors now
                  (manifest_path_of py library codecs disk services batch))
                now)
            w
            (λ now j ((c, p, t), s). (
              c,
              p ∙ sym t,
              inr (
                refl,
                λ q.
                    absurd (
                      cc (n, (==_iff job.failed_files 0).1 (sym (ap (λ x. x.failed_files) s) ∙ q))),
              ),
            ))
            a)
  ]

  Completed-IsLogged : IsLogged Completed
  Completed-IsLogged entry now job h = h

  pub conclude-After :
      (batch : Batch) (total : ℕ) (w : World D)
      → batch.job_id ≡ id
      → Here (Stage total total) w
      → After
          (conclude py library codecs disk services batch w)
          (λ _. Here Completed)
          (Here Counted)
  unfolding conclude
  conclude-After batch total w e a =
      bind-After (λ job. Here (λ j. Stage total total j × (j ≡ job))) (λ _. Here Completed)
        (Here Counted) _ _ w
        (weaken-After _ (λ job. Here (λ j. Stage total total j × (j ≡ job))) Impossible
          (Here Counted) _ (stored_job-After (Stage total total) batch w e a) (λ job s h. h)
          (λ s h. absurd h))
        (λ job s h.
          bind-After (λ _. Here Completed) (λ _. Here Completed) (Here Counted) _ _ s
            (weaken-After (λ _. Here Completed) (λ _. Here Completed) Impossible (Here Counted) _
              (mark-After batch job total s e h) (λ _ t k. k) (λ t k. absurd k))
            (λ job' s' h'.
              weaken-After (λ _. Here Completed) (λ _. Here Completed) (Here Completed)
                (Here Counted) _
                ((bind-Steady py library codecs disk services id old Completed _ _
                    (log-Steady py library codecs disk services id old Completed batch
                      "Batch translation completed" "info" none none Completed-IsLogged e)
                    (λ job''. manifest_step-Steady Completed batch _)).runs
                  s' h')
                (λ _ t k. k) (λ t k. At-weaken id old Completed Counted t.jobs (λ j c. c.0) k)))

  pub find_files-After :
      (batch : Batch) (total : ℕ) (w : World D)
      → batch.job_id ≡ id
      → Here (Stage 0 total) w
      → After
          (find_files py library codecs disk services batch w)
          (λ files. Here (Stage 0 (length files)))
          (Here Counted)
  unfolding find_files set_total update pure
  find_files-After batch total w e a =
      bind-After (λ _. Here (Stage 0 total)) (λ files. Here (Stage 0 (length files))) (Here Counted)
        _ _ w
        (weaken-After (λ _. Here (Stage 0 total)) (λ _. Here (Stage 0 total)) (Here (Stage 0 total))
          (Here Counted) _
          ((reading-Steady py library codecs disk services id old (Stage 0 total) _).runs w a)
          (λ _ s h. h) (λ s h. At-weaken id old (Stage 0 total) Counted s.jobs (λ j c. c.0) h))
        (λ files s h.
          bind-After (λ _. Here (Stage 0 (length files))) (λ files. Here (Stage 0 (length files)))
            (Here Counted) _ _ s
            (rw e (
              weaken-After (λ _. Here (Stage 0 (length files))) (λ _. Here (Stage 0 (length files)))
                Impossible (Here Counted) _
                (at_moment-After py library codecs disk services id old (Stage 0 total)
                  (Stage 0 (length files))
                  (λ now. changed (set_total_files (length files) ∷ []) now) s
                  (λ now j (c, p, t). (c, p, refl)) h)
                (λ _ t k. k) (λ t k. absurd k)))
            (λ job s' h'.
              bind-After (λ _. Here (Stage 0 (length files)))
                (λ files. Here (Stage 0 (length files))) (Here Counted) _ _ s'
                (weaken-After (λ _. Here (Stage 0 (length files)))
                  (λ _. Here (Stage 0 (length files))) Impossible (Here Counted) _
                  (log-After py library codecs disk services id old (Stage 0 (length files)) batch _
                    "info" none none s' (λ entry now j k. k) e h')
                  (λ _ t k. k) (λ t k. absurd k))
                (λ job' t k. k)))
