-- ===== src/Postgres/Statements.antt =====
-- edc_translation/postgres_backend.py: the parameterised SQL of jobs, queue, results and dead
-- letters. `now` is the time of the transaction, which `now()` returns in each of its statements.
use edctranslation_public.Prelude.{
  ℕ, ◌+◌, ◌*◌, String, Bool, true, false, ◌&&◌, ◌||◌, not, Option, none, some, List, [], ◌∷◌, ◌++◌,
  ltb, leb, ◌==◌, string_eq, option_eq, if◌then◌else◌,
}
use edctranslation_public.Prelude.Errors.{ok, err}
use edctranslation_public.Json.{ℤ, Value, null, Payload}
use edctranslation_public.Postgres.Tables.{
  Status, queued, running, succeeded, failed, JobRow, WorkRow, ResultRow, DeadLetter, ltℤ, find,
  update_where, has_job, has_work, has_result, job_row, work_row, result_row,
}
use edctranslation_public.Postgres.Transaction.{
  Tx, database, unique_violation, foreign_key_violation,
}

abbrev pub seconds : ℕ → ℕ
seconds n = n * 1000000

-- INSERT_TRANSLATION_JOB_SQL
unfoldable pub insert_translation_job :
    String → String → String → String → String → Payload → ℕ → Tx JobRow
insert_translation_job job_id document_id target_language provider_id tenant_id metadata now db =
    elim (job_row db job_id) [
      | some r ↦ err (database unique_violation)
      | none ↦
          let row : JobRow = record {
            job_id = job_id;
            document_id = document_id;
            status = queued;
            target_language = target_language;
            provider_id = provider_id;
            tenant_id = tenant_id;
            created_at = now;
            updated_at = now;
            completed_at = none;
            metadata = metadata;
            error = null;
            result_ref = none;
          } in
          ok (row, record db { jobs = db.jobs ++ row ∷ [] })
    ]

-- ENQUEUE_WORK_ITEM_SQL
unfoldable pub enqueue_work_item : String → String → ℤ → Payload → ℕ → Tx (Unit {0})
enqueue_work_item work_id job_id priority payload now db = elim (work_row db work_id) [
  | some r ↦ err (database unique_violation)
  | none ↦ elim (job_row db job_id) [
    | none ↦ err (database foreign_key_violation)
    | some j ↦
        let row : WorkRow = record {
          work_id = work_id;
          job_id = job_id;
          status = queued;
          priority = priority;
          available_at = now;
          locked_by = none;
          locked_at = none;
          attempts = 0;
          payload = payload;
          last_error = null;
          created_at = now;
          updated_at = now;
        } in
        ok (tt, record db { queue = db.queue ++ row ∷ [] })
  ]
]

-- GET_TRANSLATION_JOB_SQL
unfoldable pub get_translation_job : String → Tx (Option JobRow)
get_translation_job job_id db = ok (job_row db job_id, db)

abbrev pub update_job : String → (JobRow → JobRow) → Tx (Option JobRow)
update_job job_id f db =
    let db' = record db { jobs = update_where (has_job job_id) f db.jobs } in
    ok (job_row db' job_id, db')

-- MARK_JOB_RUNNING_SQL
unfoldable pub mark_job_running : String → ℕ → Tx (Option JobRow)
mark_job_running job_id now =
    update_job job_id (λ r. record r { status = running; updated_at = now })

-- MARK_JOB_SUCCEEDED_SQL
unfoldable pub mark_job_succeeded : String → String → ℕ → Tx (Option JobRow)
mark_job_succeeded job_id result_ref now = update_job job_id (λ r. record r {
  status = succeeded;
  updated_at = now;
  completed_at = some now;
  error = null;
  result_ref = some result_ref;
})

-- MARK_JOB_FAILED_SQL
unfoldable pub mark_job_failed : String → Value → ℕ → Tx (Option JobRow)
mark_job_failed job_id error now =
    update_job job_id
      (λ r. record r { status = failed; updated_at = now; completed_at = some now; error = error })

-- The WHERE clause of CLAIM_WORK_SQL: due, or held beyond the visibility timeout.
unfoldable pub claimable : ℕ → ℕ → WorkRow → Bool
claimable timeout now r = elim r.status [
  | queued ↦ leb r.available_at now
  | running ↦ elim r.locked_at [ none ↦ false | some t ↦ ltb (t + seconds timeout) now ]
  | _ ↦ false
]

-- ORDER BY priority DESC, created_at
unfoldable pub comes_before : WorkRow → WorkRow → Bool
comes_before a b =
    ltℤ b.priority a.priority || (not (ltℤ a.priority b.priority) && ltb a.created_at b.created_at)

-- The better of a row and of the best row behind it.
abbrev pub better : Bool → WorkRow → Option WorkRow → Option WorkRow
better false r rest = rest
better true r none = some r
better true r (some b) = if comes_before b r then some b else some r

-- The `next_work` of CLAIM_WORK_SQL. SKIP LOCKED passes over the rows that other open
-- transactions hold, and of rows that sort alike the first in the table is taken.
unfoldable pub next_work : (String → Bool) → ℕ → ℕ → List WorkRow → Option WorkRow
next_work busy timeout now [] = none
next_work busy timeout now (r ∷ rs) =
    better (claimable timeout now r && not (busy r.work_id)) r (next_work busy timeout now rs)

-- The SET clause of CLAIM_WORK_SQL
abbrev pub claimed : String → ℕ → WorkRow → WorkRow
claimed worker_id now r = record r {
  status = running;
  locked_by = some worker_id;
  locked_at = some now;
  attempts = r.attempts + 1;
  updated_at = now;
}

-- CLAIM_WORK_SQL
unfoldable pub claim_work : (String → Bool) → String → ℕ → ℕ → Tx (Option WorkRow)
claim_work busy worker_id timeout now db = elim (next_work busy timeout now db.queue) [
  | none ↦ ok (none, db)
  | some r ↦ ok (
    some (claimed worker_id now r),
    record db { queue = update_where (has_work r.work_id) (claimed worker_id now) db.queue },
  )
]

-- WHERE work_id = … AND locked_by = …
abbrev pub held : String → String → WorkRow → Bool
held work_id worker_id r = has_work work_id r && r.locked_by == some worker_id

-- MARK_WORK_SUCCEEDED_SQL
unfoldable pub mark_work_succeeded : String → String → ℕ → Tx (Unit {0})
mark_work_succeeded work_id worker_id now db = ok (
  tt,
  record db {
    queue =
        update_where (held work_id worker_id)
          (λ r. record r {
            status = succeeded;
            locked_by = none;
            locked_at = none;
            updated_at = now;
          })
          db.queue;
  },
)

-- The SET clause of MARK_WORK_FAILED_SQL
abbrev pub released : ℕ → ℕ → Value → ℕ → WorkRow → WorkRow
released max_attempts delay error now r = record r {
  status = if leb max_attempts r.attempts then failed else queued;
  available_at = if leb max_attempts r.attempts then now else now + seconds delay;
  last_error = error;
  locked_by = none;
  locked_at = none;
  updated_at = now;
}

-- MARK_WORK_FAILED_SQL
unfoldable pub mark_work_failed : String → String → ℕ → ℕ → Value → ℕ → Tx (Option Status)
mark_work_failed work_id worker_id max_attempts delay error now db =
    let f = released max_attempts delay error now in
    ok (
      elim (find (held work_id worker_id) db.queue) [ none ↦ none | some r ↦ some (f r).status ],
      record db { queue = update_where (held work_id worker_id) f db.queue },
    )

-- SAVE_RESULT_SQL
unfoldable pub save_result :
    String → String → Status → Value → Option String → Value → Payload → ℕ → Tx (Unit {0})
save_result job_id document_id status bundle result_ref error metadata now db =
    elim (job_row db job_id) [
      | none ↦ err (database foreign_key_violation)
      | some j ↦ elim (result_row db job_id) [
        | none ↦
            let row : ResultRow = record {
              job_id = job_id;
              document_id = document_id;
              status = status;
              translation_bundle = bundle;
              result_ref = result_ref;
              error = error;
              metadata = metadata;
              created_at = now;
              updated_at = now;
            } in
            ok (tt, record db { results = db.results ++ row ∷ [] })
        | some old ↦ ok (
          tt,
          record db {
            results =
                update_where (has_result job_id)
                  (λ r. record r {
                    document_id = document_id;
                    status = status;
                    translation_bundle = bundle;
                    result_ref = result_ref;
                    error = error;
                    metadata = metadata;
                    updated_at = now;
                  })
                  db.results;
          },
        )
      ]
    ]

-- INSERT_DEAD_LETTER_SQL copies the work row, which has at most one match by its key.
unfoldable pub insert_dead_letter : String → Value → String → ℕ → Tx (Unit {0})
insert_dead_letter work_id error worker_id now db = elim (work_row db work_id) [
  | none ↦ ok (tt, db)
  | some r ↦ elim (job_row db r.job_id) [
    | none ↦ err (database foreign_key_violation)
    | some j ↦
        let letter : DeadLetter = record {
          work_id = r.work_id;
          job_id = r.job_id;
          payload = r.payload;
          error = error;
          attempts = r.attempts;
          worker_id = worker_id;
          created_at = now;
        } in
        ok (tt, record db { dead_letters = db.dead_letters ++ letter ∷ [] })
  ]
]
