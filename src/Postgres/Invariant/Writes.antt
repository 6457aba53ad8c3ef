-- ===== src/Postgres/Invariant/Writes.antt =====
-- The statements that fail no row of work keep the queue's invariant.
use edctranslation_public.Prelude.{
  ℕ, String, ◌≡◌, refl, ◌≢◌, inl, inr, Bool, true, Option, List, All-append, string_eq, option_eq,
  Option-cases,
}
use edctranslation_public.Json.{Value, Payload, ℤ}
use edctranslation_public.Postgres.Tables.{
  Status, failed, JobRow, ResultRow, job_row, result_row, WorkRow, Database, update_where, has_work,
  work_row,
}
use edctranslation_public.Postgres.Statements.{
  insert_translation_job, enqueue_work_item, claimed, claim_work, held, mark_work_succeeded,
  save_result, next_work,
}
use edctranslation_public.Postgres.Rows.{All-update_where}
use edctranslation_public.Postgres.Invariant.{Polls, polled_at, Lock, free, taken, Buried, IsQueue}
use edctranslation_public.Postgres.Invariant.Keeps.{Keeps}
use edctranslation_public.Postgres.Invariant.Rules.{Unique-update_where, Unique-append}

module _ (limit : ℕ) (polls : Polls) where
  pub same_rows :
      (db : Database) (jobs : List JobRow) (results : List ResultRow)
      → IsQueue limit polls db
      → IsQueue limit polls (record db { jobs = jobs; results = results })
  same_rows db jobs results q = record {
    unique = q.unique;
    locks = q.locks;
    failures = q.failures;
    spent = q.spent;
  }

  pub insert_translation_job-keeps :
      (job document target provider tenant : String) (metadata : Payload) (now : ℕ)
      → Keeps
          (IsQueue limit polls)
          (insert_translation_job job document target provider tenant metadata now)
          (λ row. IsQueue limit polls)
  unfolding insert_translation_job
  insert_translation_job-keeps job document target provider tenant metadata now db q =
      elim (Option-cases (job_row db job)) [
        | inl h ↦ rw (h, insert_translation_job) (same_rows db _ db.results q)
        | inr (r, h) ↦ rw (h, insert_translation_job) tt
      ]

  pub save_result-keeps :
      (job document : String) (status : Status) (bundle : Value) (reference : Option String)
      (error : Value) (metadata : Payload) (now : ℕ)
      → Keeps
          (IsQueue limit polls)
          (save_result job document status bundle reference error metadata now)
          (λ u. IsQueue limit polls)
  unfolding save_result
  save_result-keeps job document status bundle reference error metadata now db q =
      elim (Option-cases (job_row db job)) [
        | inl h ↦ rw (h, save_result) tt
        | inr (j, h) ↦ elim (Option-cases (result_row db job)) [
          | inl k ↦ rw (h, k, save_result) (same_rows db db.jobs _ q)
          | inr (r, k) ↦ rw (h, k, save_result) (same_rows db db.jobs _ q)
        ]
      ]

  -- A new row of work is free and has not failed.
  pub enqueue_work_item-keeps :
      (work job : String) (priority : ℤ) (payload : Payload) (now : ℕ)
      → Keeps
          (IsQueue limit polls)
          (enqueue_work_item work job priority payload now)
          (λ u. IsQueue limit polls)
  unfolding enqueue_work_item
  enqueue_work_item-keeps work job priority payload now db q =
      elim (Option-cases (work_row db work)) [
        | inr (r, h) ↦ rw (h, enqueue_work_item) tt
        | inl h ↦ elim (Option-cases (job_row db job)) [
          | inl k ↦ rw (h, k, enqueue_work_item) tt
          | inr (j, k) ↦
              rw (h, k, enqueue_work_item)
                (record {
                  unique = Unique-append db.queue _ q.unique h;
                  locks = All-append (Lock polls) db.queue _ q.locks (free (λ e. cc) refl refl, tt);
                  failures =
                      All-append (Buried limit db.dead_letters) db.queue _ q.failures
                        ((λ e. cc), tt);
                  spent = q.spent;
                })
        ]
      ]

  -- An update that keeps the ids, leaves proper locks and fails no row keeps the invariant.
  update-keeps :
      (db : Database) (p : WorkRow → Bool) (f : WorkRow → WorkRow)
      → ((r : WorkRow) → (f r).work_id ≡ r.work_id)
      → ((r : WorkRow) → Lock polls (f r))
      → ((r : WorkRow) → (f r).status ≢ failed)
      → IsQueue limit polls db
      → IsQueue limit polls (record db { queue = update_where p f db.queue })
  update-keeps db p f same lock alive q = record {
    unique = Unique-update_where p f same db.queue q.unique;
    locks = All-update_where (Lock polls) p f db.queue (λ r h l. lock r) q.locks;
    failures =
        All-update_where (Buried limit db.dead_letters) p f db.queue (λ r h b e. absurd (alive r e))
          q.failures;
    spent = q.spent;
  }

  pub claim_work-keeps :
      (busy : String → Bool) (worker : String) (timeout now : ℕ)
      → polled_at worker now polls ≡ true
      → Keeps
          (IsQueue limit polls)
          (claim_work busy worker timeout now)
          (λ row. IsQueue limit polls)
  unfolding claim_work
  claim_work-keeps busy worker timeout now polled db q =
      elim (Option-cases (next_work busy timeout now db.queue)) [
        | inl h ↦ rw (h, claim_work) q
        | inr (r, h) ↦
            rw (h, claim_work)
              (update-keeps db (has_work r.work_id) (claimed worker now) (λ r. refl)
                (λ r. taken worker now refl refl refl polled) (λ r e. cc) q)
      ]

  pub mark_work_succeeded-keeps :
      (work worker : String) (now : ℕ)
      → Keeps (IsQueue limit polls) (mark_work_succeeded work worker now) (λ u. IsQueue limit polls)
  unfolding mark_work_succeeded
  mark_work_succeeded-keeps work worker now db q =
      update-keeps db (held work worker) _ (λ r. refl) (λ r. free (λ e. cc) refl refl) (λ r e. cc) q
