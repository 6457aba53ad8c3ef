-- ===== src/Postgres/Jobs/Creation.antt =====
-- What `PostgresJobRepository.create` leaves for `get`.
use edctranslation_public.Prelude.{
  ℕ, String, ◌<>◌, ◌≡◌, refl, ◌∙◌, none, some, List, [], ◌∷◌, ◌++◌, arith, ◌==◌, string_eq,
  Option-cases, inl, inr, if◌then◌else◌,
}
use edctranslation_public.Prelude.Errors.{ok}
use edctranslation_public.Json.{null, Payload, Runtime, get_or}
use edctranslation_public.Postgres.Tables.{queued, JobRow, Database, find, has_job, job_row}
use edctranslation_public.Postgres.Transaction.{transact}
use edctranslation_public.Postgres.Statements.{insert_translation_job, get_translation_job}
use edctranslation_public.Postgres.Rows.{find-append}
use edctranslation_public.Postgres.Jobs.{str_or, execute_one, create, get}

rows_append :
    (rows : List JobRow) (row : JobRow) (k : String)
    → find (has_job row.job_id) rows ≡ none
    → find (has_job k) (rows ++ row ∷ [])
      ≡ (if k == row.job_id then some row else find (has_job k) rows)
rows_append rows row k h = elim (string_eq.dec k row.job_id) [
  | yes e ↦ find-append (has_job k) rows row ∙ rw (e, h) (ground arith)
  | no n ↦ elim (Option-cases (find (has_job k) rows)) [
    | inl f ↦ find-append (has_job k) rows row ∙ rw f (ground arith)
    | inr (q, f) ↦ find-append (has_job k) rows row ∙ rw f (ground arith)
  ]
]

own_append :
    (rows : List JobRow) (row : JobRow)
    → find (has_job row.job_id) rows ≡ none
    → find (has_job row.job_id) (rows ++ row ∷ []) ≡ some row
own_append rows row h = rows_append rows row row.job_id h ∙ ground arith

-- The id that the metadata ask for, or a fresh one.
abbrev pub asked : Runtime → String → Payload → String
asked py hex metadata = str_or py (get_or metadata "job_id" null) ("trjob_" <> hex)

module _ (py : Runtime) (hex document target provider : String) (metadata : Payload) (now : ℕ)
    (db : Database) where
  abbrev pub new_row : JobRow
  new_row = record {
    job_id = asked py hex metadata;
    document_id = document;
    status = queued;
    target_language = target;
    provider_id = provider;
    tenant_id = str_or py (get_or metadata "tenant_id" null) "standalone";
    created_at = now;
    updated_at = now;
    completed_at = none;
    metadata = metadata;
    error = null;
    result_ref = none;
  }

  -- Where no job has the id that the metadata ask for, or else the fresh one: `create` returns a
  -- queued row under that id, `get` then returns the same row, every other job reads as before, and
  -- no other table is changed.
  pub get-create :
      job_row db (asked py hex metadata) ≡ none
      → let (r, after) = create py hex document target provider metadata now db in
        (r ≡ ok new_row)
        × (get new_row.job_id after ≡ (ok new_row, after))
        × ((k : String)
            → job_row after k ≡ (if k == new_row.job_id then some new_row else job_row db k))
        × (after ≡ record db { jobs = after.jobs })
  unfolding create insert_translation_job transact get execute_one get_translation_job
  get-create h =
      let rows = rows_append db.jobs new_row in
      rw (h, create, transact, insert_translation_job)
        (refl, rw (own_append db.jobs new_row h, execute_one, get) refl, λ k. rows k h, refl)
