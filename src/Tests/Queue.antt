-- ===== src/Tests/Queue.antt =====
-- Runs of the queue of edc_translation/postgres_backend.py.
use mathlib.Core.Option
use edctranslation_public.Prelude.{
  String, ◌+◌, ◌≡◌, refl, none, some, [], ◌∷◌, ◌++◌, arith, ◌==◌, string_eq, option_eq,
  if◌then◌else◌,
}
use edctranslation_public.Prelude.Dict
use edctranslation_public.Prelude.Errors.{ok}
use edctranslation_public.Json.{dict, fields, str, truthy}
use edctranslation_public.Jobs.WorkItem.{resolved_job_id, resolved_work_id, document_id}
use edctranslation_public.Postgres.Tables.{
  JobRow, queued, running, failed, ResultRow, Database, work_row, job_row, result_row,
}
use edctranslation_public.Postgres.Statements.{seconds, held}
use edctranslation_public.Postgres.Queue.{submit, claim, poll, ack, nack, error_or_empty}
use edctranslation_public.Postgres.Claim.{Unique}
use edctranslation_public.Postgres.Jobs.{create, get, mark_running, mark_failed}
use edctranslation_public.Postgres.Jobs.Creation.{asked, new_row, get-create}
use edctranslation_public.Postgres.Jobs.Marks.{Marks, ledger-Marks}
use edctranslation_public.Postgres.Poll.{ClaimOutcome, claim-outcome, claim-keeps_lease}
use edctranslation_public.Postgres.Release.{
  letter, ended, nack-not_holder, nack-requeues, nack-buries,
}
use edctranslation_public.Postgres.Ack.{Says, done_row, done_job, ack-outcome}
use edctranslation_public.Postgres.Invariant.{IsQueue}
use edctranslation_public.Postgres.Invariant.Steps.{
  start, step, submitted, polled, refused, Reach-IsQueue,
}
use edctranslation_public.Tests.Fixtures.{
  waiting_row, bad_item, py, item, bundle, success, failure, settings, job, row, last_row, db,
  last_db, idle,
}

named : resolved_work_id py item ≡ ok "w1"
unfolding resolved_work_id string_eq
named = refl

own_job : resolved_job_id py item ≡ ok "j1"
unfolding resolved_job_id string_eq
own_job = refl

own_document : document_id py item ≡ ok "d1"
unfolding document_id Dict.lookup string_eq str
own_document = refl

db-Unique : Unique db.queue
unfolding string_eq
db-Unique = (refl, (refl, tt))

row_stored : work_row db "w1" ≡ some row
unfolding string_eq
row_stored = refl

last_row_stored : work_row last_db "w1" ≡ some last_row
unfolding string_eq
last_row_stored = refl

job_stored : job_row db "j1" ≡ some job
unfolding string_eq
job_stored = refl

bad_named : resolved_work_id py bad_item ≡ ok "w2"
unfolding resolved_work_id string_eq
bad_named = refl

waiting_row_stored : work_row db "w2" ≡ some waiting_row
unfolding string_eq
waiting_row_stored = refl

claim-outcome_example :
    ClaimOutcome py settings idle 9 db
      (claim py settings idle 9 db).0
      (claim py settings idle 9 db).1
claim-outcome_example = claim-outcome py settings idle 9 db db-Unique

claim-keeps_lease_example : work_row (claim py settings idle 9 db).1 "w1" ≡ some row
claim-keeps_lease_example =
    claim-keeps_lease py settings idle 9 5 db row "w1" db-Unique row_stored refl refl (omega arith)

nack-not_holder_example : nack py settings bad_item failure 9 db ≡ (ok tt, db)
nack-not_holder_example =
    nack-not_holder py settings bad_item "w2" bad_named failure 9 db waiting_row db-Unique
      waiting_row_stored (λ e. cc)

nack-requeues_example :
    let (res, after) = nack py settings item failure 9 db in
    (res ≡ ok tt)
    × ((id : String)
        → work_row after id ≡ (
            if id == "w1"
            then some (record row {
              status = queued;
              available_at = 9 + seconds 60;
              last_error = error_or_empty failure.error;
              locked_by = none;
              locked_at = none;
              updated_at = 9;
            })
            else work_row db id))
    × (after ≡ record db { queue = after.queue })
nack-requeues_example =
    nack-requeues py settings item "w1" named failure 9 db row row_stored refl (omega arith)

nack-buries_example :
    let (res, after) = nack py settings item failure 9 last_db in
    let error = error_or_empty failure.error in
    (res ≡ ok tt)
    × ((id : String)
        → work_row after id ≡ (
            if id == "w1"
            then some (record last_row {
              status = failed;
              available_at = 9;
              last_error = error;
              locked_by = none;
              locked_at = none;
              updated_at = 9;
            })
            else work_row last_db id))
    × (after.dead_letters
        ≡ last_db.dead_letters ++ letter py settings item "w1" named failure 9 last_row ∷ [])
    × ((id : String)
        → job_row after id ≡ (
            if id == "j1"
            then some (ended py settings item "w1" named failure 9 job)
            else job_row last_db id))
    × (after.results ≡ last_db.results)
nack-buries_example =
    nack-buries py settings item "w1" named failure 9 last_db last_row job last_row_stored refl
      (omega arith) own_job job_stored

ack-outcome_example :
    let (res, after) = ack py settings item success 9 db in
    (res ≡ ok tt)
    × ((q : ResultRow) × (result_row after "j1" ≡ some q) × Says (dict (fields bundle)) q)
    × ((id : String)
        → job_row after id ≡ (
            if id == "j1"
            then some (done_job py settings item "j1" "w1" "d1" own_job named own_document 9 job)
            else job_row db id))
    × ((id : String)
        → work_row after id
          ≡ Option.map
              (λ r.
                if held "w1" "worker-a" r
                then done_row py settings item "j1" "w1" "d1" own_job named own_document 9 r
                else r)
              (work_row db id))
    × (after.dead_letters ≡ db.dead_letters)
ack-outcome_example =
    ack-outcome py settings item "j1" "w1" "d1" own_job named own_document success bundle 9 db job
      refl job_stored

-- An item is submitted, claimed, and handed back by its worker.
abbrev empty : Database
empty = record { jobs = []; queue = []; results = []; dead_letters = [] }

Reach-IsQueue_example :
    IsQueue 3
      ((settings.worker_id, 5) ∷ [])
      (nack py settings item failure 9 (poll py settings idle 5 (submit py item 1 empty).1).1).1
Reach-IsQueue_example = Reach-IsQueue 3 py _ ((settings.worker_id, 5) ∷ []) (
    step (step (step start (submitted item 1 refl)) (polled settings idle 5 refl refl))
      (refused settings item failure 9 refl refl))

-- The marks of the job that is there.
ledger-Marks_example :
    Marks (λ r. record r { status = running; updated_at = 9 }) "j1" db (mark_running "j1" 9 db)
    × Marks
        (λ r. record r {
          status = failed;
          updated_at = 9;
          completed_at = some 9;
          error = dict (fields []);
        })
        "j1"
        db
        (mark_failed "j1" [] 9 db)
ledger-Marks_example = ledger-Marks "j1" [] 9 db

absent : job_row db (asked py "1f" []) ≡ none
unfolding Dict.lookup string_eq truthy
absent = refl

get-create_example :
    let row : JobRow = new_row py "1f" "d2" "fr" "local" [] 9 db in
    let (r, after) = create py "1f" "d2" "fr" "local" [] 9 db in
    (r ≡ ok row)
    × (get row.job_id after ≡ (ok row, after))
    × ((k : String) → job_row after k ≡ (if k == row.job_id then some row else job_row db k))
    × (after ≡ record db { jobs = after.jobs })
get-create_example = get-create py "1f" "d2" "fr" "local" [] 9 db absent
