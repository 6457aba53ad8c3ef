-- ===== src/Postgres/Invariant/Steps.antt =====
-- Every step of the queue keeps its invariant, and so does every sequence of steps.
use edctranslation_public.Prelude.{
  ℕ, String, ◌≡◌, Bool, true, Option, none, some, List, [], ◌∷◌, ◌++◌, option_eq, string_eq, nat_eq,
  All, arith, Option-cases, inl, inr,
}
use edctranslation_public.Prelude.Errors.{Result, Exception}
use edctranslation_public.Json.{Value, null, dict, fields, Payload, Runtime}
use edctranslation_public.Jobs.WorkItem.{
  TranslationWorkItem, document_id, resolved_job_id, resolved_work_id, to_message,
}
use edctranslation_public.Worker.Results.{TranslationWorkerResult}
use edctranslation_public.Postgres.Tables.{
  Status, queued, running, succeeded, failed, WorkRow, Database,
}
use edctranslation_public.Postgres.Transaction.{Tx, ◌>>=◌, pure, compute}
use edctranslation_public.Postgres.Statements.{
  insert_translation_job, enqueue_work_item, mark_work_failed, mark_job_succeeded, mark_job_failed,
  save_result, insert_dead_letter,
}
use edctranslation_public.Postgres.Queue.{
  PostgresQueueSettings, submit, submit_metadata, priority_of, claim, poll, ack, ack_writes, nack,
  nack_writes, bury, result_reference, error_or_empty,
}
use edctranslation_public.Postgres.Invariant.{
  Polls, polled_at, Lock, free, taken, IsQueue, IsWaiting,
}
use edctranslation_public.Postgres.Invariant.Keeps.{
  Keeps, bind-Keeps, compute-Keeps, transact-keeps,
}
use edctranslation_public.Postgres.Invariant.Writes.{
  same_rows, insert_translation_job-keeps, save_result-keeps, enqueue_work_item-keeps,
  claim_work-keeps, mark_work_succeeded-keeps,
}
use edctranslation_public.Postgres.Invariant.Burial.{
  Released, mark_work_failed-leaves, insert_dead_letter-keeps,
}

module _ (limit : ℕ) (polls : Polls) (py : Runtime) where
  -- A transaction that keeps the invariant statement by statement.
  abbrev Sound : {A : Type 0} → Tx A → Type 0
  Sound m = Keeps (IsQueue limit polls) m (λ a. IsQueue limit polls)

  then-Sound :
      {A B : Type 0} (m : Tx A) (f : A → Tx B) → Sound m → ((a : A) → Sound (f a)) → Sound (m >>= f)
  then-Sound m f hm hf =
      bind-Keeps (IsQueue limit polls) m (λ a. IsQueue limit polls) f (λ b. IsQueue limit polls) hm
        hf

  compute-Sound :
      {A B : Type 0} (r : Result Exception A) (f : A → Tx B)
      → ((a : A) → Sound (f a))
      → Sound (compute r >>= f)
  compute-Sound r f hf = then-Sound (compute r) f (compute-Keeps (IsQueue limit polls) r) hf

  mark_job_succeeded-Sound :
      (job reference : String) (now : ℕ) → Sound (mark_job_succeeded job reference now)
  unfolding mark_job_succeeded
  mark_job_succeeded-Sound job reference now db q = same_rows limit polls db _ db.results q

  mark_job_failed-Sound :
      (job : String) (error : Value) (now : ℕ) → Sound (mark_job_failed job error now)
  unfolding mark_job_failed
  mark_job_failed-Sound job error now db q = same_rows limit polls db _ db.results q

  submit-keeps :
      (item : TranslationWorkItem) (now : ℕ) (db : Database)
      → IsQueue limit polls db
      → IsQueue limit polls (submit py item now db).1
  unfolding submit
  submit-keeps item now db = transact-keeps (IsQueue limit polls) _ db (
      compute-Sound (resolved_job_id py item) _ λ job.
        compute-Sound (document_id py item) _ λ document.
          then-Sound
            (insert_translation_job job document item.target_language item.provider_id
              item.tenant_id (submit_metadata py item job) now)
            _
            (insert_translation_job-keeps limit polls job document item.target_language
              item.provider_id item.tenant_id (submit_metadata py item job) now)
            λ row. compute-Sound (resolved_work_id py item) _ λ work.
              compute-Sound (priority_of py (submit_metadata py item job)) _ λ priority.
                compute-Sound (to_message py item) _ λ payload.
                  then-Sound (enqueue_work_item work job priority payload now) _
                    (enqueue_work_item-keeps limit polls work job priority payload now) λ u db q. q)

  module _ (settings : PostgresQueueSettings) (shared : settings.max_attempts ≡ limit) where
    poll-keeps :
        (busy : String → Bool) (now : ℕ) (db : Database)
        → polled_at settings.worker_id now polls ≡ true
        → IsQueue limit polls db
        → IsQueue limit polls (poll py settings busy now db).1
    unfolding poll claim
    poll-keeps busy now db polled = transact-keeps (IsQueue limit polls) _ db (
        claim_work-keeps limit polls busy settings.worker_id settings.visibility_timeout_seconds now
          polled)

    ack_writes-Sound :
        (job work document : String) (bundle : Payload) (result : TranslationWorkerResult) (now : ℕ)
        → Sound (ack_writes py settings job work document bundle result now)
    unfolding ack_writes
    ack_writes-Sound job work document bundle result now =
        then-Sound
          (save_result job document succeeded (dict (fields bundle)) (some (result_reference job))
            null result.metadata now)
          _
          (save_result-keeps limit polls job document succeeded (dict (fields bundle))
            (some (result_reference job)) null result.metadata now)
          λ u.
            then-Sound (mark_job_succeeded job (result_reference job) now) _
              (mark_job_succeeded-Sound job (result_reference job) now)
              λ row. mark_work_succeeded-keeps limit polls work settings.worker_id now

    ack-keeps :
        (item : TranslationWorkItem) (result : TranslationWorkerResult) (now : ℕ) (db : Database)
        → IsQueue limit polls db
        → IsQueue limit polls (ack py settings item result now db).1
    unfolding ack ack_writes
    ack-keeps item result now db q = elim (Option-cases result.translation_bundle) [
      | inl none_given ↦ rw none_given q
      | inr (bundle, given) ↦ rw given (
          transact-keeps (IsQueue limit polls) _ db
            (compute-Sound (resolved_job_id py item) _ λ job.
              compute-Sound (document_id py item) _ λ document.
                compute-Sound (resolved_work_id py item) _
                  λ work. ack_writes-Sound job work document bundle result now)
            q)
    ]

    bury-keeps :
        (item : TranslationWorkItem) (work : String) (error : Value) (now : ℕ)
        → Keeps
            (IsWaiting limit polls work)
            (bury py settings item work error now)
            (λ u. IsQueue limit polls)
    unfolding bury
    bury-keeps item work error now =
        bind-Keeps (IsWaiting limit polls work)
          (insert_dead_letter work error settings.worker_id now) (λ u. IsQueue limit polls) _
          (λ u. IsQueue limit polls)
          (insert_dead_letter-keeps limit polls work error settings.worker_id now)
          λ u. compute-Sound (resolved_job_id py item) _ λ job.
            then-Sound (mark_job_failed job error now) _ (mark_job_failed-Sound job error now)
              λ row db q. q

    nack_writes-Sound :
        (item : TranslationWorkItem) (work : String) (error : Value) (now : ℕ)
        → Sound (nack_writes py settings item work error now)
    unfolding nack_writes
    nack_writes-Sound item work error now =
        bind-Keeps (IsQueue limit polls)
          (mark_work_failed work settings.worker_id settings.max_attempts
            settings.retry_delay_seconds error now)
          (Released limit polls work) _ (λ u. IsQueue limit polls)
          (rw shared (
            mark_work_failed-leaves limit polls work settings.worker_id settings.retry_delay_seconds
              error now))
          after
      where
        after :
            (status : Option Status)
            → Keeps
                (Released limit polls work status)
                (elim status as (λ s. Tx (Unit {0})) [
                  | none ↦ pure tt
                  | some st ↦ elim st [
                    | failed ↦ bury py settings item work error now
                    | _ ↦ pure tt
                  ]
                ])
                (λ u. IsQueue limit polls)
        after none db q = q
        after (some queued) db q = q
        after (some running) db q = q
        after (some succeeded) db q = q
        after (some failed) db q = bury-keeps item work error now db q

    nack-keeps :
        (item : TranslationWorkItem) (result : TranslationWorkerResult) (now : ℕ) (db : Database)
        → IsQueue limit polls db
        → IsQueue limit polls (nack py settings item result now db).1
    unfolding nack
    nack-keeps item result now db = transact-keeps (IsQueue limit polls) _ db (
        compute-Sound (resolved_work_id py item) _
          λ work. nack_writes-Sound item work (error_or_empty result.error) now)

module _ (limit : ℕ) where
  -- A later poll takes no lock away.
  weaken-locks :
      (polls : Polls) (p : String × ℕ) (rs : List WorkRow)
      → All (Lock polls) rs
      → All (Lock (p ∷ polls)) rs
  weaken-locks polls p [] h = tt
  weaken-locks polls p (r ∷ rs) (free s w a, h) = (free s w a, weaken-locks polls p rs h)
  weaken-locks polls p (r ∷ rs) (taken worker since s w a k, h) =
      (taken worker since s w a (ground (arith, k)), weaken-locks polls p rs h)

  weaken :
      (polls : Polls) (p : String × ℕ) (db : Database)
      → IsQueue limit polls db
      → IsQueue limit (p ∷ polls) db
  weaken polls p db q = record {
    unique = q.unique;
    locks = weaken-locks polls p db.queue q.locks;
    failures = q.failures;
    spent = q.spent;
  }

module _ (limit : ℕ) (py : Runtime) where
  -- A step of a client or of a worker. All workers have the same limit of attempts; the times, the
  -- rows that others hold locked, the items and the results are arbitrary.
  pub data Step (before after : Database) : Polls → Type 0 where
    submitted :
        (item : TranslationWorkItem) (now : ℕ)
        → after ≡ (submit py item now before).1
        → Step before after []
    polled :
        (settings : PostgresQueueSettings) (busy : String → Bool) (now : ℕ)
        → settings.max_attempts ≡ limit
        → after ≡ (poll py settings busy now before).1
        → Step before after ((settings.worker_id, now) ∷ [])
    acknowledged :
        (settings : PostgresQueueSettings) (item : TranslationWorkItem)
        (result : TranslationWorkerResult) (now : ℕ)
        → settings.max_attempts ≡ limit
        → after ≡ (ack py settings item result now before).1
        → Step before after []
    refused :
        (settings : PostgresQueueSettings) (item : TranslationWorkItem)
        (result : TranslationWorkerResult) (now : ℕ)
        → settings.max_attempts ≡ limit
        → after ≡ (nack py settings item result now before).1
        → Step before after []

  -- The databases that a history reaches, with the polls in it, the last one first.
  pub data Reach : Database → Polls → Type 0 where
    start : Reach (record { jobs = []; queue = []; results = []; dead_letters = [] }) []
    step :
        {before after : Database} {polls new : Polls}
        → Reach before polls
        → Step before after new
        → Reach after (new ++ polls)

  -- Each submission, poll, success and failure keeps the invariant of the queue.
  pub Step-IsQueue :
      {before after : Database} {new : Polls} (polls : Polls)
      → Step before after new
      → IsQueue limit polls before
      → IsQueue limit (new ++ polls) after
  Step-IsQueue polls (submitted item now e) q = rw e (submit-keeps limit polls py item now _ q)
  Step-IsQueue polls (polled settings busy now shared e) q = rw e (
      poll-keeps limit ((settings.worker_id, now) ∷ polls) py settings shared busy now _
        (ground arith) (weaken limit polls (settings.worker_id, now) _ q))
  Step-IsQueue polls (acknowledged settings item result now shared e) q =
      rw e (ack-keeps limit polls py settings shared item result now _ q)
  Step-IsQueue polls (refused settings item result now shared e) q =
      rw e (nack-keeps limit polls py settings shared item result now _ q)

  -- In every database that clients and workers reach from the empty one, in any order of steps: no
  -- work id stands twice; a row is running exactly while a worker holds it, since a time at which
  -- that worker polled; a failed row has used up its attempts and has a dead letter; and every dead
  -- letter records at least that many attempts.
  pub Reach-IsQueue : (db : Database) (polls : Polls) → Reach db polls → IsQueue limit polls db
  Reach-IsQueue _ _ start = record { unique = tt; locks = tt; failures = tt; spent = tt }
  Reach-IsQueue _ _ (step r s) = Step-IsQueue _ s (Reach-IsQueue _ _ r)
