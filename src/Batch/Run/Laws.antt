-- ===== src/Batch/Run/Laws.antt =====
-- How far a run's steps move the counters of their job: a translated file counts once.
use edctranslation_public.Prelude.{
  ℕ, suc, ◌+◌, String, ◌≡◌, ap, Option, none, some, List, [], ◌∷◌, length, ◌==◌, string_eq, arith,
  Bool-cases, inl, inr,
}
use edctranslation_public.Prelude.Errors.{Result, ok, err}
use edctranslation_public.Json.{Runtime, Payload}
use edctranslation_public.Auth.{Texts}
use edctranslation_public.Batch.Act.{BatchError, Act, reading, ◌>>=◌, pure, raise}
use edctranslation_public.Batch.Act.Laws.{After, bind-After, attempt-After, weaken-After}
use edctranslation_public.Batch.Job.{TextFileBatchJob}
use edctranslation_public.Batch.Repository.{
  Jobs, change, logged, append_log, add_file_result, with_result,
}
use edctranslation_public.Batch.Encoding.{Codecs}
use edctranslation_public.Batch.Files.{Disk, DecodedTextFile, auto}
use edctranslation_public.Batch.Run.{
  Batch, Services, World, on_disk, at_moment, at_moments, log, source_language, bundle_path_of,
  convert, record_success, record_failure, failed_result, error_text, translate_file,
  translate_files,
}
use edctranslation_public.Batch.Counted.{Counted, At, At-weaken, change-At, with_result-Counted}

-- So many of so many files are done.
abbrev pub Stage : ℕ → ℕ → TextFileBatchJob → Type 0
Stage n total job = Counted job × (job.processed_files ≡ n) × (job.total_files ≡ total)

-- What a log entry does not touch.
abbrev pub IsLogged : (TextFileBatchJob → Type 0) → Type 0
IsLogged P =
    (entry : Payload) (now : String) (job : TextFileBatchJob) → P job → P (logged entry now job)

with_result-Stage :
    (result : Payload) (now : String) (n total : ℕ) (job : TextFileBatchJob)
    → Stage n total job
    → Stage (suc n) total (with_result result now job)
with_result-Stage result now n total job (c, p, t) =
    (with_result-Counted result now job c, ap suc p, t)

module _ (py : Runtime) (library : Texts) (codecs : Codecs) {D : Type 0} (disk : Disk D)
    (services : Services) (id : String) (old : Jobs) where
  -- The state of a run in which the job has a property.
  abbrev pub In : (TextFileBatchJob → Type 0) → World D → Type 0
  In P w = At id old P w.jobs

  abbrev pub Never : World D → Type 0
  Never w = ⊥

  -- A step that keeps the property, whether it ends or raises.
  pub record Steady {A : Type 0} (P : TextFileBatchJob → Type 0) (m : Act (World D) A)
      : Type 0 where
    pub runs : (w : World D) → In P w → After (m w) (λ _. In P) (In P)

  pub at_moment-After :
      (P Q : TextFileBatchJob → Type 0) (f : String → TextFileBatchJob → TextFileBatchJob)
      (w : World D)
      → ((now : String) (job : TextFileBatchJob) → P job → Q (f now job))
      → In P w
      → After
          (at_moment py library codecs disk services (λ now. change id (f now)) w)
          (λ _. In Q)
          Never
  unfolding at_moment
  at_moment-After P Q f w k a =
      let (job, jobs, p, b) = change-At id old P Q (f (services.time w.tick)) w.jobs (k _) a in
      rw (p, at_moment) b

  at_moments-After :
      (P : TextFileBatchJob → Type 0) (f : String → String → TextFileBatchJob → TextFileBatchJob)
      (w : World D)
      → ((t now : String) (job : TextFileBatchJob) → P job → P (f t now job))
      → In P w
      → After
          (at_moments py library codecs disk services (λ t now. change id (f t now)) w)
          (λ _. In P)
          Never
  unfolding at_moments
  at_moments-After P f w k a =
      let (job, jobs, p, b) =
        change-At id old P P (f (services.time w.tick) (services.time (suc w.tick))) w.jobs (k _ _)
          a in
      rw (p, at_moments) b

  pub log-After :
      (P : TextFileBatchJob → Type 0) (batch : Batch) (message level : String)
      (file_path output_path : Option String) (w : World D)
      → IsLogged P
      → batch.job_id ≡ id
      → In P w
      → After
          (log py library codecs disk services batch message level file_path output_path w)
          (λ _. In P)
          Never
  unfolding append_log
  log-After P batch message level file_path output_path w k e a =
      rw e (at_moments-After P _ w (λ t now job h. k _ now job h) a)

  pub Never-any : (P : TextFileBatchJob → Type 0) (w : World D) → Never w → In P w
  Never-any P w h = absurd h

  pub log-Steady :
      (P : TextFileBatchJob → Type 0) (batch : Batch) (message level : String)
      (file_path output_path : Option String)
      → IsLogged P
      → batch.job_id ≡ id
      → Steady P (log py library codecs disk services batch message level file_path output_path)
  log-Steady P batch message level file_path output_path k e = record {
    runs = λ w a.
        weaken-After (λ _. In P) (λ _. In P) Never (In P)
          (log py library codecs disk services batch message level file_path output_path w)
          (log-After P batch message level file_path output_path w k e a) (λ _ s h. h)
          (Never-any P);
  }

  kept :
      {A : Type 0} (P : TextFileBatchJob → Type 0) (r : Result BatchError A) (w : World D)
      → In P w
      → After (r, w) (λ _. In P) (In P)
  kept P (ok a) w h = h
  kept P (err e) w h = h

  pub reading-Steady :
      {A : Type 0} (P : TextFileBatchJob → Type 0) (f : World D → Result BatchError A)
      → Steady P (reading f)
  unfolding reading
  reading-Steady P f = record { runs = λ w h. kept P (f w) w h }

  pub on_disk-Steady :
      {A : Type 0} (P : TextFileBatchJob → Type 0) (m : Act D A)
      → Steady P (on_disk py library codecs disk services m)
  unfolding on_disk
  on_disk-Steady P m = record {
    runs = λ w h. let (r, d) = m w.disk in kept P r (record w { disk = d }) h;
  }

  pub pure-Steady : {A : Type 0} (P : TextFileBatchJob → Type 0) (a : A) → Steady P (pure a)
  unfolding pure
  pure-Steady P a = record { runs = λ w h. h }

  pub bind-Steady :
      {A B : Type 0} (P : TextFileBatchJob → Type 0) (m : Act (World D) A) (f : A → Act (World D) B)
      → Steady P m
      → ((a : A) → Steady P (f a))
      → Steady P (m >>= f)
  bind-Steady P m f sm sf = record {
    runs =
        λ w h. bind-After (λ _. In P) (λ _. In P) (In P) m f w (sm.runs w h) (λ a s. (sf a).runs s);
  }

  source_language-Steady :
      (P : TextFileBatchJob → Type 0) (batch : Batch) (path : String) (decoded : DecodedTextFile)
      → IsLogged P
      → batch.job_id ≡ id
      → Steady P (source_language py library codecs disk services batch path decoded)
  unfolding source_language
  source_language-Steady P batch path decoded k e =
      elim (Bool-cases (batch.source_language == auto)) [
        | inr n ↦ rw (n, source_language) (pure-Steady P _)
        | inl y ↦
            rw (y, source_language)
              (bind-Steady P _ _ (log-Steady P batch _ "info" (some path) none k e)
                (λ job. pure-Steady P _))
      ]

  bundle_path_of-Steady :
      (P : TextFileBatchJob → Type 0) (batch : Batch) (output : String) (translated : Payload)
      → Steady P (bundle_path_of py library codecs disk services batch output translated)
  unfolding bundle_path_of
  bundle_path_of-Steady P batch output translated =
      elim (Bool-cases batch.settings.write_translation_bundles) [
        | inr n ↦ rw (n, bundle_path_of) (pure-Steady P _)
        | inl y ↦
            rw (y, bundle_path_of) (bind-Steady P _ _ (on_disk-Steady P _) (λ u. pure-Steady P _))
      ]

  convert-Steady :
      (P : TextFileBatchJob → Type 0) (batch : Batch) (path relative output : String)
      → IsLogged P
      → batch.job_id ≡ id
      → Steady P (convert py library codecs disk services batch path relative output)
  unfolding convert
  convert-Steady P batch path relative output k e =
      bind-Steady P _ _ (on_disk-Steady P _) λ decoded.
        bind-Steady P _ _ (log-Steady P batch _ "info" (some path) none k e) λ job.
          bind-Steady P _ _ (source_language-Steady P batch path decoded k e) λ detection.
            bind-Steady P _ _ (reading-Steady P _) λ bundle.
              bind-Steady P _ _ (reading-Steady P _) λ translated.
                bind-Steady P _ _ (reading-Steady P _) λ content.
                  bind-Steady P _ _ (on_disk-Steady P _) λ encoding.
                    bind-Steady P _ _ (bundle_path_of-Steady P batch output translated)
                      λ bundle_path.
                        bind-Steady P _ _ (reading-Steady P _) λ schema. pure-Steady P _

  Stage-IsLogged : (n total : ℕ) → IsLogged (Stage n total)
  Stage-IsLogged n total entry now job h = h

  record_success-After :
      (batch : Batch) (path output : String) (result : Payload) (n total : ℕ) (w : World D)
      → batch.job_id ≡ id
      → In (Stage n total) w
      → After
          (record_success py library codecs disk services batch path output result w)
          (λ _. In (Stage (suc n) total))
          Never
  unfolding record_success add_file_result pure
  record_success-After batch path output result n total w e a =
      bind-After (λ _. In (Stage (suc n) total)) (λ _. In (Stage (suc n) total)) Never _ _ w
        (rw e (
          at_moment-After (Stage n total) (Stage (suc n) total) (with_result result) w
            (λ now job. with_result-Stage result now n total job) a))
        (λ job s h.
          bind-After (λ _. In (Stage (suc n) total)) (λ _. In (Stage (suc n) total)) Never _ _ s
            (log-After (Stage (suc n) total) batch "Converted file" "info" (some path) (some output)
              s (Stage-IsLogged (suc n) total) e h)
            (λ job' s' h'. h'))

  record_failure-After :
      (batch : Batch) (path relative output : String) (f : BatchError) (n total : ℕ) (w : World D)
      → batch.job_id ≡ id
      → In (Stage n total) w
      → After
          (record_failure py library codecs disk services batch path relative output f w)
          (λ _. In (Stage (suc n) total))
          (In (Stage (suc n) total))
  unfolding record_failure add_file_result pure raise
  record_failure-After batch path relative output f k total w e a =
      bind-After (λ _. In (Stage (suc k) total)) (λ _. In (Stage (suc k) total))
        (In (Stage (suc k) total)) _ _ w
        (rw e (
          weaken-After (λ _. In (Stage (suc k) total)) (λ _. In (Stage (suc k) total)) Never
            (In (Stage (suc k) total)) _
            (at_moment-After (Stage k total) (Stage (suc k) total)
              (with_result
                (failed_result path relative output (error_text py library codecs disk services f)))
              w (λ now job. with_result-Stage _ now k total job) a)
            (λ _ s h. h) (Never-any (Stage (suc k) total))))
        (λ job s h.
          bind-After (λ _. In (Stage (suc k) total)) (λ _. In (Stage (suc k) total))
            (In (Stage (suc k) total)) _ _ s
            ((log-Steady (Stage (suc k) total) batch (error_text py library codecs disk services f)
                "error" (some path) (some output) (Stage-IsLogged (suc k) total) e).runs
              s h)
            (λ job' s' h'. elim (Bool-cases batch.settings.continue_on_error) [
              | inl y ↦ rw y h'
              | inr n ↦ rw n h'
            ]))

  -- A file either ends, having counted once, or raises with the counters true.
  translate_file-After :
      (batch : Batch) (path : String) (n total : ℕ) (w : World D)
      → batch.job_id ≡ id
      → In (Stage n total) w
      → After
          (translate_file py library codecs disk services batch path w)
          (λ _. In (Stage (suc n) total))
          (In Counted)
  unfolding translate_file
  translate_file-After batch path n total w e a =
      bind-After (λ _. In (Stage n total)) (λ _. In (Stage (suc n) total)) (In Counted) _ _ w
        (weaken-After (λ _. In (Stage n total)) (λ _. In (Stage n total)) (In (Stage n total))
          (In Counted) _ ((reading-Steady (Stage n total) _).runs w a) (λ _ s h. h)
          (λ s h. At-weaken id old (Stage n total) Counted s.jobs (λ job j. j.0) h))
        (λ relative s h.
          attempt-After (λ _. In (Stage (suc n) total)) (In (Stage n total)) (In Counted) _ _ s
            (bind-After (λ _. In (Stage n total)) (λ _. In (Stage (suc n) total))
              (In (Stage n total)) _ _ s
              ((convert-Steady (Stage n total) batch path relative
                  (disk.join_path batch.output_dir relative) (Stage-IsLogged n total) e).runs
                s h)
              (λ result s' h'.
                weaken-After (λ _. In (Stage (suc n) total)) (λ _. In (Stage (suc n) total)) Never
                  (In (Stage n total)) _
                  (record_success-After batch path (disk.join_path batch.output_dir relative) result
                    n total s' e h')
                  (λ _ t k. k) (Never-any (Stage n total))))
            (λ f s' h'.
              weaken-After (λ _. In (Stage (suc n) total)) (λ _. In (Stage (suc n) total))
                (In (Stage (suc n) total)) (In Counted) _
                (record_failure-After batch path relative (disk.join_path batch.output_dir relative)
                  f n total s' e h')
                (λ _ t k. k)
                (λ t k. At-weaken id old (Stage (suc n) total) Counted t.jobs (λ job j. j.0) k)))

  pub translate_files-After :
      (batch : Batch) (paths : List String) (n total : ℕ) (w : World D)
      → batch.job_id ≡ id
      → In (Stage n total) w
      → After
          (translate_files py library codecs disk services batch paths w)
          (λ _. In (Stage (n + length paths) total))
          (In Counted)
  unfolding translate_files pure
  translate_files-After batch [] n total w e a =
      At-weaken id old (Stage n total) (Stage (n + 0) total) w.jobs
        (λ job (c, p, t). (c, omega (arith, p), t)) a
  translate_files-After batch (path ∷ paths) n total w e a =
      bind-After (λ _. In (Stage (suc n) total)) (λ _. In (Stage (n + suc (length paths)) total))
        (In Counted) _ _ w (translate_file-After batch path n total w e a)
        (λ u s h.
          weaken-After (λ _. In (Stage (suc n + length paths) total))
            (λ _. In (Stage (n + suc (length paths)) total)) (In Counted) (In Counted) _
            (translate_files-After batch paths (suc n) total s e h)
            (λ _ t k.
              At-weaken id old (Stage (suc n + length paths) total)
                (Stage (n + suc (length paths)) total) t.jobs
                (λ job (c, p, t'). (c, omega (arith, p), t')) k)
            (λ t k. k))
