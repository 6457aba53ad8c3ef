-- ===== src/Postgres/Tables.antt =====
-- edc_translation/postgres_backend.py, `POSTGRES_SCHEMA_SQL`: the tables of jobs, work, results and
-- dead letters. Times are microseconds; a `jsonb` column holds the value that its text stands for.
use edctranslation_public.Prelude.{
  ℕ, String, Bool, true, false, Option, none, some, List, [], ◌∷◌, ltb, ◌==◌, string_eq,
  if◌then◌else◌,
}
use edctranslation_public.Json.{ℤ, pos, negsuc, Value, Payload}

pub data Status : Type 0 where
  queued running succeeded failed : Status

pub record JobRow : Type 0 where
  pub job_id : String
  pub document_id : String
  pub status : Status
  pub target_language : String
  pub provider_id : String
  pub tenant_id : String
  pub created_at : ℕ
  pub updated_at : ℕ
  pub completed_at : Option ℕ
  pub metadata : Payload
  pub error : Value
  pub result_ref : Option String

pub record WorkRow : Type 0 where
  pub work_id : String
  pub job_id : String
  pub status : Status
  pub priority : ℤ
  pub available_at : ℕ
  pub locked_by : Option String
  pub locked_at : Option ℕ
  pub attempts : ℕ
  pub payload : Payload
  pub last_error : Value
  pub created_at : ℕ
  pub updated_at : ℕ

pub record ResultRow : Type 0 where
  pub job_id : String
  pub document_id : String
  pub status : Status
  pub translation_bundle : Value
  pub result_ref : Option String
  pub error : Value
  pub metadata : Payload
  pub created_at : ℕ
  pub updated_at : ℕ

pub record DeadLetter : Type 0 where
  pub work_id : String
  pub job_id : String
  pub payload : Payload
  pub error : Value
  pub attempts : ℕ
  pub worker_id : String
  pub created_at : ℕ

pub record Database : Type 0 where
  pub jobs : List JobRow
  pub queue : List WorkRow
  pub results : List ResultRow
  pub dead_letters : List DeadLetter

abbrev pub ltℤ : ℤ → ℤ → Bool
ltℤ (pos a) (pos b) = ltb a b
ltℤ (pos a) (negsuc b) = false
ltℤ (negsuc a) (pos b) = true
ltℤ (negsuc a) (negsuc b) = ltb b a

module _ {ℓ} {A : Type ℓ} where
  -- `SELECT … WHERE p LIMIT 1`
  abbrev pub find : (A → Bool) → List A → Option A
  find p [] = none
  find p (r ∷ rs) = if p r then some r else find p rs

  -- `UPDATE … SET f WHERE p`
  abbrev pub update_where : (A → Bool) → (A → A) → List A → List A
  update_where p f [] = []
  update_where p f (r ∷ rs) = (if p r then f r else r) ∷ update_where p f rs

abbrev pub has_job : String → JobRow → Bool
has_job id r = r.job_id == id

abbrev pub has_work : String → WorkRow → Bool
has_work id r = r.work_id == id

abbrev pub has_result : String → ResultRow → Bool
has_result id r = r.job_id == id

-- The row of a job, of a work item and of a result, by primary key.
abbrev pub job_row : Database → String → Option JobRow
job_row db id = find (has_job id) db.jobs

abbrev pub work_row : Database → String → Option WorkRow
work_row db id = find (has_work id) db.queue

abbrev pub result_row : Database → String → Option ResultRow
result_row db id = find (has_result id) db.results
