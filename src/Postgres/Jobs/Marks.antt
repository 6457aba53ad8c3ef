-- ===== src/Postgres/Jobs/Marks.antt =====
-- What the marks of the durable job ledger do to its rows.
use mathlib.Core.Option
use edctranslation_public.Prelude.{
  ℕ, String, ◌≡◌, refl, ◌∙◌, Option, none, some, arith, ◌==◌, string_eq, if◌then◌else◌,
}
use edctranslation_public.Prelude.Errors.{Result, ok, err, key_error}
use edctranslation_public.Json.{dict, Payload, fields}
use edctranslation_public.Postgres.Tables.{
  running, failed, JobRow, Database, find, update_where, has_job, job_row,
}
use edctranslation_public.Postgres.Transaction.{Failure, raised, transact}
use edctranslation_public.Postgres.Statements.{update_job, mark_job_running, mark_job_failed}
use edctranslation_public.Postgres.Rows.{find-update_key}
use edctranslation_public.Postgres.Jobs.{execute_one, mark_running, mark_failed}

module _ (f : JobRow → JobRow) (id : String) (db : Database) where
  -- What a mark comes to: the job that is there is changed and returned, and nothing else is changed;
  -- a job that is not there raises, and nothing is changed that a lookup shows.
  abbrev pub Marks : Result Failure JobRow × Database → Type 0
  Marks (r, after) =
      (r ≡ elim (job_row db id) [ none ↦ err (raised (key_error id)) | some j ↦ ok (f j) ])
      × ((k : String)
          → job_row after k ≡ (if k == id then Option.map f (job_row db id) else job_row db k))
      × (after ≡ record db { jobs = after.jobs })

  abbrev found : Option JobRow → Result Failure JobRow
  found o = elim o [ none ↦ err (raised (key_error id)) | some j ↦ ok j ]

  found-map :
      (o : Option JobRow)
      → found (Option.map f o) ≡ elim o [ none ↦ err (raised (key_error id)) | some j ↦ ok (f j) ]
  found-map none = refl
  found-map (some j) = refl

module _ (f : JobRow → JobRow) (keeps : (r : JobRow) → (f r).job_id ≡ r.job_id) (id : String)
    (db : Database) where
  rows_after :
      (k : String)
      → find (has_job k) (update_where (has_job id) f db.jobs)
        ≡ (if k == id then Option.map f (job_row db id) else job_row db k)
  rows_after k = elim (string_eq.dec k id) [
    | yes e ↦ find-update_key (λ (q : JobRow). q.job_id) f keeps id k db.jobs ∙ ground (arith, e)
    | no n ↦ find-update_key (λ (q : JobRow). q.job_id) f keeps id k db.jobs ∙ ground (arith, n)
  ]

  own_row_after :
      find (has_job id) (update_where (has_job id) f db.jobs) ≡ Option.map f (job_row db id)
  own_row_after = rows_after id ∙ ground arith

  update_job-Marks : Marks f id db (execute_one id (update_job id f) db)
  unfolding execute_one transact
  update_job-Marks =
      (rw (own_row_after, execute_one) (found-map f id db (job_row db id)), rows_after, refl)

-- `mark_running` and `mark_failed` change the job under the id, return it changed, and leave every
-- other job and every other table as it was; where there is no such job they raise, and no job
-- differs.
pub ledger-Marks :
    (id : String) (error : Payload) (now : ℕ) (db : Database)
    → Marks (λ r. record r { status = running; updated_at = now }) id db (mark_running id now db)
      × Marks
          (λ r. record r {
            status = failed;
            updated_at = now;
            completed_at = some now;
            error = dict (fields error);
          })
          id
          db
          (mark_failed id error now db)
unfolding mark_running mark_failed mark_job_running mark_job_failed
ledger-Marks id error now db =
    (update_job-Marks _ (λ r. refl) id db, update_job-Marks _ (λ r. refl) id db)
