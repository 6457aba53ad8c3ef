-- ===== src/Batch/Counted.antt =====
-- What the counters of a batch job say of its files, and the steps of a run that keep it.
use edctranslation_public.Prelude.{
  ℕ, suc, String, ◌≡◌, ◌≢◌, refl, ap, ◌∙◌, some, List, [], ◌∷◌, ◌++◌, length, length-append, nat_eq,
  string_eq, not, if◌then◌else◌, arith, Bool-cases, inl, inr,
}
use edctranslation_public.Prelude.Dict
use edctranslation_public.Prelude.Errors.{ok}
use edctranslation_public.Json.{Payload}
use edctranslation_public.Batch.Job.{TextFileBatchJob}
use edctranslation_public.Batch.Repository.{Jobs, change, is_succeeded, with_result}

abbrev pub failures : List Payload → ℕ
failures [] = 0
failures (result ∷ results) =
    let rest = failures results in if not (is_succeeded result) then suc rest else rest

-- The counters are the numbers of results and of failures.
abbrev pub Counted : TextFileBatchJob → Type 0
Counted job = (job.processed_files ≡ length job.files) × (job.failed_files ≡ failures job.files)

failures-append :
    (results : List Payload) (result : Payload)
    → failures (results ++ result ∷ [])
      ≡ (if not (is_succeeded result) then suc (failures results) else failures results)
failures-append [] result = refl
failures-append (r ∷ results) result = elim (Bool-cases (is_succeeded r)) [
  | inl y ↦ rw y (failures-append results result)
  | inr n ↦ elim (Bool-cases (is_succeeded result)) [
    | inl y ↦ rw (n, y) (ap suc (failures-append results result ∙ rw y refl))
    | inr m ↦ rw (n, m) (ap suc (failures-append results result ∙ rw m refl))
  ]
]

pub with_result-Counted :
    (result : Payload) (now : String) (job : TextFileBatchJob)
    → Counted job
    → Counted (with_result result now job)
with_result-Counted result now job (p, f) = (
  omega (arith, p, length-append job.files (result ∷ [])),
  rw (f, failures-append job.files result) refl,
)

-- The job is there, with a property, and every other job is as it was at first.
pub record At (id : String) (old : Jobs) (P : TextFileBatchJob → Type 0) (jobs : Jobs)
    : Type 0 where
  pub job : TextFileBatchJob
  pub found : Dict.lookup id jobs ≡ some job
  pub holds : P job
  pub frame : (j : String) → j ≢ id → Dict.lookup j jobs ≡ Dict.lookup j old

pub At-weaken :
    (id : String) (old : Jobs) (P Q : TextFileBatchJob → Type 0) (jobs : Jobs)
    → ((job : TextFileBatchJob) → P job → Q job)
    → At id old P jobs
    → At id old Q jobs
At-weaken id old P Q jobs k a = record {
  job = a.job;
  found = a.found;
  holds = k a.job a.holds;
  frame = a.frame;
}

-- A change of the job itself.
pub change-At :
    (id : String) (old : Jobs) (P Q : TextFileBatchJob → Type 0)
    (f : TextFileBatchJob → TextFileBatchJob) (jobs : Jobs)
    → ((job : TextFileBatchJob) → P job → Q (f job))
    → At id old P jobs
    → (job : TextFileBatchJob) × (jobs' : Jobs) × (change id f jobs ≡ (ok job, jobs'))
      × At id old Q jobs'
unfolding change
change-At id old P Q f jobs k a = (
  f a.job,
  Dict.insert id (f a.job) jobs,
  rw (a.found, change) refl,
  record {
    job = f a.job;
    found = Dict.lookup-insert_self id (f a.job) jobs;
    holds = k a.job a.holds;
    frame = λ j n. Dict.lookup-insert_ne j id (f a.job) jobs n ∙ a.frame j n;
  },
)
