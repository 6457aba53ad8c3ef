-- ===== src/Postgres/Poll.antt =====
-- What `PostgresWorkQueue.poll` does to the queue in its transaction.
use edctranslation_public.Prelude.{
  ℕ, ◌+◌, ◌≤◌, String, ◌≡◌, refl, Bool, true, false, none, some, arith, ◌==◌, string_eq, All,
  if◌then◌else◌, sym, ◌∙◌, Option,
}
use edctranslation_public.Prelude.Errors.{Result, ok, err}
use edctranslation_public.Json.{Runtime}
use edctranslation_public.Postgres.Tables.{
  running, WorkRow, Database, find, update_where, has_work, work_row,
}
use edctranslation_public.Postgres.Transaction.{Failure, transact}
use edctranslation_public.Postgres.Statements.{seconds, claimable, next_work, claimed, claim_work}
use edctranslation_public.Postgres.Claim.{
  Unique, eligible, IsFirst, Chosen, next_work-Chosen, In-find,
}
use edctranslation_public.Postgres.Rows.{find-update_key}
use edctranslation_public.Postgres.Queue.{PostgresQueueSettings, claim}

module _ (py : Runtime) (settings : PostgresQueueSettings) where
  open settings use {worker_id, visibility_timeout_seconds as timeout}

  -- The row that is claimed, and every row after the claim.
  pub record Claims (busy : String → Bool) (now : ℕ) (before after : Database) (r w : WorkRow)
      : Type 0 where
    pub stored : work_row before r.work_id ≡ some r
    pub allowed : eligible busy timeout now r ≡ true
    pub first : IsFirst busy timeout now before.queue r
    pub result : w ≡ claimed worker_id now r
    pub rows :
        (id : String) → work_row after id ≡ (if id == r.work_id then some w else work_row before id)
    pub others : after ≡ record before { queue = after.queue }

  -- What one claim may come to.
  abbrev pub ClaimOutcome :
      (String → Bool) → ℕ → Database → Result Failure (Option WorkRow) → Database → Type 0
  ClaimOutcome busy now before (err e) after = ⊥
  ClaimOutcome busy now before (ok none) after =
      (after ≡ before) × All (λ q. eligible busy timeout now q ≡ false) before.queue
  ClaimOutcome busy now before (ok (some w)) after =
      (r : WorkRow) × Claims busy now before after r w

  row-claimed :
      (now : ℕ) (db : Database) (r : WorkRow) (id : String)
      → work_row db r.work_id ≡ some r
      → find (has_work id) (update_where (has_work r.work_id) (claimed worker_id now) db.queue)
        ≡ (if id == r.work_id then some (claimed worker_id now r) else work_row db id)
  row-claimed now db r id h =
      find-update_key (λ (q : WorkRow). q.work_id) (claimed worker_id now) (λ q. refl) r.work_id id
        db.queue
      ∙ ground (arith, h)

  claim_by :
      (busy : String → Bool) (now : ℕ) (db : Database) (o : Option WorkRow)
      → Unique db.queue
      → next_work busy timeout now db.queue ≡ o
      → Chosen busy timeout now db.queue o
      → ClaimOutcome busy now db (claim py settings busy now db).0 (claim py settings busy now db).1
  unfolding claim transact claim_work
  claim_by busy now db none u e h = rw (e, claim, transact, claim_work) (refl, h)
  claim_by busy now db (some r) u e (i, g, f) =
      let stored = In-find db.queue r u i in
      rw (e, claim, transact, claim_work)
        (
          r,
          record {
            stored = stored;
            allowed = g;
            first = f;
            result = refl;
            rows = λ id. row-claimed now db r id stored;
            others = refl;
          },
        )

  -- Where no work id stands twice, a poll's transaction never fails. It claims nothing and changes nothing, and then no row may be
  -- taken; or it claims one row: one that is due, or held beyond the visibility timeout, and not
  -- locked by another transaction, before which no such row sorts. The claimed row is then running
  -- under this worker since now with one more attempt, and every other row and table is unchanged.
  pub claim-outcome :
      (busy : String → Bool) (now : ℕ) (db : Database)
      → Unique db.queue
      → ClaimOutcome busy now db (claim py settings busy now db).0 (claim py settings busy now db).1
  claim-outcome busy now db u =
      claim_by busy now db (next_work busy timeout now db.queue) u refl
        (next_work-Chosen busy timeout now db.queue)

  leased-not_eligible :
      (busy : String → Bool) (now t : ℕ) (r : WorkRow)
      → r.status ≡ running
      → r.locked_at ≡ some t
      → now ≤ t + seconds timeout
      → eligible busy timeout now r ≡ false
  unfolding claimable
  leased-not_eligible busy now t r st l lease = rw (st, l, claimable) (ground arith)

  outcome-keeps :
      (busy : String → Bool) (now : ℕ) (db after : Database) (r : WorkRow) (id : String)
      (res : Result Failure (Option WorkRow))
      → work_row db id ≡ some r
      → eligible busy timeout now r ≡ false
      → ClaimOutcome busy now db res after
      → work_row after id ≡ some r
  outcome-keeps busy now db after r id (err e) h held c = absurd c
  outcome-keeps busy now db after r id (ok none) h held (e, _) = rw e h
  outcome-keeps busy now db after r id (ok (some w)) h held (q, c) =
      elim (string_eq.dec id q.work_id) [
        | yes p ↦
            let same : some q ≡ some r = sym c.stored ∙ rw p at h in cc (same, held, c.allowed)
        | no p ↦ rw (c.rows id) (ground (arith, h))
      ]

  -- Where no work id stands twice: while the lease on a running row lasts, the transaction of a poll
  -- by any worker leaves the row as it is.
  pub claim-keeps_lease :
      (busy : String → Bool) (now t : ℕ) (db : Database) (r : WorkRow) (id : String)
      → Unique db.queue
      → work_row db id ≡ some r
      → r.status ≡ running
      → r.locked_at ≡ some t
      → now ≤ t + seconds timeout
      → work_row (claim py settings busy now db).1 id ≡ some r
  claim-keeps_lease busy now t db r id u h st l lease =
      outcome-keeps busy now db _ r id (claim py settings busy now db).0 h
        (leased-not_eligible busy now t r st l lease) (claim-outcome busy now db u)
