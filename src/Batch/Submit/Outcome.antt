-- ===== src/Batch/Submit/Outcome.antt =====
-- Every run of a batch ends, in a terminal status.
use edctranslation_public.Prelude.{
  ℕ, ◌+◌, String, ◌≡◌, refl, none, some, List, [], ◌∷◌, length, ◌==◌, nat_eq, string_eq, inl, inr,
  arith, Bool-cases,
}
use edctranslation_public.Prelude.Dict
use edctranslation_public.Prelude.Errors.{Result, ok, err}
use edctranslation_public.Json.{Runtime, text}
use edctranslation_public.Auth.{Texts}
use edctranslation_public.Batch.Act.{BatchError, pure, raise}
use edctranslation_public.Batch.Act.Laws.{After, bind-After, attempt-After, weaken-After}
use edctranslation_public.Batch.Job.{TextFileBatchJob}
use edctranslation_public.Batch.Repository.{
  Jobs, update, changed, running_changes, failed_changes, mark_running, mark_failed,
}
use edctranslation_public.Batch.Encoding.{Codecs}
use edctranslation_public.Batch.Files.{Disk, auto}
use edctranslation_public.Batch.Run.{Batch, Services, World, error_text}
use edctranslation_public.Batch.Counted.{Counted, At, At-weaken}
use edctranslation_public.Batch.Run.Laws.{
  Stage, In, Never, at_moment-After, log-After, on_disk-Steady, translate_files-After,
}
use edctranslation_public.Batch.Submit.{run_files, translate_found, fail, run_text_file_batch_job}
use edctranslation_public.Batch.Submit.Laws.{Completed, Ended, find_files-After, conclude-After}

module _ (py : Runtime) (library : Texts) (codecs : Codecs) {D : Type 0} (disk : Disk D)
    (services : Services) (id : String) (old : Jobs) where
  abbrev Sees : (TextFileBatchJob → Type 0) → World D → Type 0
  Sees = In py library codecs disk services id old

  abbrev Nowhere : World D → Type 0
  Nowhere = Never py library codecs disk services id old

  translate_found-After :
      (batch : Batch) (files : List String) (w : World D)
      → batch.job_id ≡ id
      → Sees (Stage 0 (length files)) w
      → After
          (translate_found py library codecs disk services batch files w)
          (λ _. Sees Completed)
          (Sees Counted)
  unfolding translate_found raise
  translate_found-After batch [] w e a = At-weaken id old (Stage 0 0) Counted w.jobs (λ j c. c.0) a
  translate_found-After batch (path ∷ paths) w e a =
      let total = length (path ∷ paths) in
      bind-After (λ _. Sees (Stage 0 total)) (λ _. Sees Completed) (Sees Counted) _ _ w
        (weaken-After (λ _. Sees (Stage 0 total)) (λ _. Sees (Stage 0 total)) (Sees (Stage 0 total))
          (Sees Counted) _
          ((on_disk-Steady py library codecs disk services id old (Stage 0 total) _).runs w a)
          (λ _ s h. h) (λ s h. At-weaken id old (Stage 0 total) Counted s.jobs (λ j c. c.0) h))
        (λ u s h.
          bind-After (λ _. Sees (Stage total total)) (λ _. Sees Completed) (Sees Counted) _ _ s
            (weaken-After (λ _. Sees (Stage (0 + total) total)) (λ _. Sees (Stage total total))
              (Sees Counted) (Sees Counted) _
              (translate_files-After py library codecs disk services id old batch (path ∷ paths) 0
                total s e h)
              (λ _ t k.
                At-weaken id old (Stage (0 + total) total) (Stage total total) t.jobs
                  (λ j (c, p, q). (c, omega (arith, p), q)) k)
              (λ t k. k))
            (λ u' t k. conclude-After py library codecs disk services id old batch total t e k))

  run_files-After :
      (batch : Batch) (total : ℕ) (w : World D)
      → batch.job_id ≡ id
      → Sees (Stage 0 total) w
      → After
          (run_files py library codecs disk services batch w)
          (λ _. Sees Completed)
          (Sees Counted)
  unfolding run_files raise
  run_files-After batch total w e a = elim (Bool-cases (batch.target_language == auto)) [
    | inl y ↦ rw (y, run_files) (At-weaken id old (Stage 0 total) Counted w.jobs (λ j c. c.0) a)
    | inr n ↦
        rw (n, run_files)
          (bind-After (λ files. Sees (Stage 0 (length files))) (λ _. Sees Completed) (Sees Counted)
            _ _ w (find_files-After py library codecs disk services id old batch total w e a)
            (λ files s h. translate_found-After batch files s e h))
  ]

  fail-After :
      (batch : Batch) (f : BatchError) (w : World D)
      → batch.job_id ≡ id
      → Sees Counted w
      → After (fail py library codecs disk services batch f w) (λ _. Sees Ended) Nowhere
  unfolding fail mark_failed update pure
  fail-After batch f w e a =
      bind-After (λ _. Sees Ended) (λ _. Sees Ended) Nowhere _ _ w
        (rw e (
          at_moment-After py library codecs disk services id old Counted Ended
            (λ now.
              changed
                (failed_changes now (
                  ("code", text "text_file_batch_failed")
                  ∷ ("message", text (error_text py library codecs disk services f))
                  ∷ []))
                now)
            w (λ now j c. inr (c, refl)) a))
        (λ job s h.
          bind-After (λ _. Sees Ended) (λ _. Sees Ended) Nowhere _ _ s
            (log-After py library codecs disk services id old Ended batch _ "error" none none s
              (λ entry now j k. k) e h)
            (λ job' t k. k))

  run-After :
      (batch : Batch) (total : ℕ) (w : World D)
      → batch.job_id ≡ id
      → Sees (Stage 0 total) w
      → After
          (run_text_file_batch_job py library codecs disk services batch w)
          (λ _. Sees Ended)
          Nowhere
  unfolding run_text_file_batch_job mark_running update
  run-After batch total w e a =
      bind-After (λ _. Sees (Stage 0 total)) (λ _. Sees Ended) Nowhere _ _ w
        (rw e (
          at_moment-After py library codecs disk services id old (Stage 0 total) (Stage 0 total)
            (changed running_changes) w (λ now j k. k) a))
        (λ job s h.
          bind-After (λ _. Sees (Stage 0 total)) (λ _. Sees Ended) Nowhere _ _ s
            (log-After py library codecs disk services id old (Stage 0 total) batch _ "info" none
              none s (λ entry now j k. k) e h)
            (λ job' t k.
              attempt-After (λ _. Sees Ended) (Sees Counted) Nowhere _ _ t
                (weaken-After (λ _. Sees Completed) (λ _. Sees Ended) (Sees Counted) (Sees Counted)
                  _ (run_files-After batch total t e k)
                  (λ _ u c. At-weaken id old Completed Ended u.jobs (λ j q. inl q) c) (λ u c. c))
                (λ f u c. fail-After batch f u e c)))

  After-ok :
      (Q : World D → Type 0) (r : Result BatchError (Unit {0}) × World D)
      → After r (λ _. Q) Nowhere
      → (r.0 ≡ ok tt) × Q r.1
  After-ok Q (ok u, w) h = (refl, h)
  After-ok Q (err e, w) h = absurd h

  pub run-Ended :
      (batch : Batch) (total : ℕ) (w : World D)
      → batch.job_id ≡ id
      → Sees (Stage 0 total) w
      → ((run_text_file_batch_job py library codecs disk services batch w).0 ≡ ok tt)
        × Sees Ended (run_text_file_batch_job py library codecs disk services batch w).1
  run-Ended batch total w e a = After-ok (Sees Ended) _ (run-After batch total w e a)

-- Whatever the files, the libraries and the services answer, the run of a batch whose job is stored
-- with no result yet returns without an exception and leaves the job in a terminal status: either
-- every file counts as processed and the job has succeeded without, or completed with, failed files,
-- or the run has failed; its counters are the numbers of its results, and every other job is as it
-- was.
pub run_text_file_batch_job-Ended :
    (py : Runtime) (library : Texts) (codecs : Codecs) {D : Type 0} (disk : Disk D)
    (services : Services) (batch : Batch) (job : TextFileBatchJob) (w : World D)
    → Dict.lookup batch.job_id w.jobs ≡ some job
    → job.files ≡ []
    → job.processed_files ≡ 0
    → job.failed_files ≡ 0
    → (let (r, w') = run_text_file_batch_job py library codecs disk services batch w in
        (r ≡ ok tt) × At batch.job_id w.jobs Ended w'.jobs)
run_text_file_batch_job-Ended py library codecs disk services batch job w f n p q =
    run-Ended py library codecs disk services batch.job_id w.jobs batch job.total_files w refl
      (record { job = job; found = f; holds = ((rw n p, rw n q), p, refl); frame = λ j n'. refl })
