-- ===== src/Jobs/Memory.antt =====
-- edc_translation/jobs.py: `InMemoryTranslationJobRepository`, a dict of jobs under a lock. Each
-- method holds the lock for its whole body, so a method is one step.
use edctranslation_public.Prelude.{
  String, ◌≡◌, refl, true, none, some, List, ◌==◌, string_eq, if◌then◌else◌, [],
}
use edctranslation_public.Prelude.Dict
use edctranslation_public.Prelude.Dict.{Dict}
use edctranslation_public.Prelude.Errors.{Result, ok, err, Exception, key_error}
use edctranslation_public.Jobs.Job.{TranslationJob, Change, changed}
use edctranslation_public.Jobs.Repository.{JobStore, IsJobStore}

abbrev pub Jobs : Type 0
Jobs = Dict String TranslationJob

unfoldable pub write : TranslationJob → Jobs → Result Exception (Unit {0}) × Jobs
write job jobs = (ok tt, Dict.insert job.job_id job jobs)

unfoldable pub get : String → Jobs → Result Exception TranslationJob
get id jobs = elim (Dict.lookup id jobs) [ none ↦ err (key_error id) | some job ↦ ok job ]

-- The found job is changed in place, so the dict shows the changed job.
unfoldable pub update :
    String → List Change → String → Jobs → Result Exception TranslationJob × Jobs
update id cs now jobs = elim (Dict.lookup id jobs) [
  | none ↦ (err (key_error id), jobs)
  | some job ↦ (ok (changed cs now job), Dict.insert id (changed cs now job) jobs)
]

unfoldable pub list : Jobs → List TranslationJob
list jobs = Dict.values jobs

unfoldable pub clear : Jobs → Jobs
clear jobs = []

abbrev pub memory : JobStore
memory = record { State = Jobs; write = write; update = update; read = get }

pub update-result :
    (id : String) (cs : List Change) (now : String) (job : TranslationJob) (jobs : Jobs)
    → Dict.lookup id jobs ≡ some job
    → (update id cs now jobs).0 ≡ ok (changed cs now job)
unfolding update
update-result id cs now job jobs h = rw (h, update)

pub view-update :
    (id : String) (cs : List Change) (now : String) (job : TranslationJob) (jobs : Jobs)
    (j : String)
    → Dict.lookup id jobs ≡ some job
    → Dict.lookup j (update id cs now jobs).1
      ≡ (if j == id then some (changed cs now job) else Dict.lookup j jobs)
unfolding update
view-update id cs now job jobs j h = rw (h, update) (Dict.lookup-insert j id _ jobs)

pub update-missing :
    (id : String) (cs : List Change) (now : String) (jobs : Jobs)
    → Dict.lookup id jobs ≡ none
    → update id cs now jobs ≡ (err (key_error id), jobs)
unfolding update
update-missing id cs now jobs h = rw (h, update)

-- The dict meets the contract of a job store.
unfoldable pub memory-IsJobStore : IsJobStore memory
unfolding write get
memory-IsJobStore = record {
  view = λ jobs id. Dict.lookup id jobs;
  accepts = λ id. true;
  IsSound = λ jobs. Unit;
  write-result = λ job jobs h. refl;
  view-write = λ job jobs j h. Dict.lookup-insert j job.job_id job jobs;
  write-IsSound = λ job jobs h. tt;
  update-result = λ id cs now job jobs s h. update-result id cs now job jobs h;
  view-update = λ id cs now job jobs j s h. view-update id cs now job jobs j h;
  update-missing = λ id cs now jobs s h. update-missing id cs now jobs h;
  update-IsSound = λ id cs now jobs s. tt;
  read-view = λ id jobs s. refl;
}
