-- ===== src/Postgres/Invariant/Burial.antt =====
-- The release of a row by `nack`, and the dead letter that follows the last one.
use edctranslation_public.Prelude.{
  ℕ, ◌≤◌, String, ◌≡◌, refl, ◌≢◌, inl, inr, Bool, true, false, Option, none, some, List, [], ◌∷◌,
  All, All-append, arith, leb, string_eq, option_eq, if◌then◌else◌, Bool-cases, Option-cases, ◌∙◌,
}
use edctranslation_public.Json.{Value}
use edctranslation_public.Postgres.Tables.{
  Status, queued, running, failed, job_row, WorkRow, DeadLetter, Database, find, update_where,
  has_work,
}
use edctranslation_public.Postgres.Statements.{held, released, mark_work_failed, insert_dead_letter}
use edctranslation_public.Postgres.Claim.{Unique}
use edctranslation_public.Postgres.Held.{held_row, update-none}
use edctranslation_public.Postgres.Rows.{find-update_where, find_holds, All-update_where}
use edctranslation_public.Postgres.Invariant.{
  Polls, Lock, free, Buried, IsQueue, Waiting, IsWaiting,
}
use edctranslation_public.Postgres.Invariant.Keeps.{Keeps}
use edctranslation_public.Postgres.Invariant.Rules.{Unique-update_where, Buried-append, All-find}

module _ (limit : ℕ) (polls : Polls) where
  -- What a release leaves: a failure that waits for its dead letter, or the invariant itself.
  abbrev pub Released : String → Option Status → Database → Type 0
  Released work none = IsQueue limit polls
  Released work (some failed) = IsWaiting limit polls work
  Released work (some _) = IsQueue limit polls

  -- What a release makes of one row: a free one, which has failed only if its attempts are used up.
  released-Waiting :
      (work worker : String) (delay : ℕ) (error : Value) (now : ℕ) (ls : List DeadLetter)
      (r : WorkRow)
      → held work worker r ≡ true
      → Waiting limit work ls (released limit delay error now r)
  released-Waiting work worker delay error now ls r h e = elim (Bool-cases (leb limit r.attempts)) [
    | inl last ↦ (ground arith, inl (ground (arith, h)))
    | inr again ↦ absurd (cc (rw again at e))
  ]

  -- Where no row of `work` has failed, none waits for its dead letter.
  Waiting-absent :
      (work : String) (ls : List DeadLetter) (rs : List WorkRow)
      → find (has_work work) rs ≡ none
      → All (Waiting limit work ls) rs
      → All (Buried limit ls) rs
  Waiting-absent work ls [] f h = tt
  Waiting-absent work ls (r ∷ rs) f (w, h) = elim (string_eq.dec r.work_id work) [
    | yes p ↦ absurd (ground (arith, p, f))
    | no p ↦ (
      λ e. let (le, m) = w e in (le, elim m [ inl own ↦ absurd (p own) | inr b ↦ b ]),
      Waiting-absent work ls rs (ground (arith, p, f)) h,
    )
  ]

  Waiting-alive :
      (work : String) (ls : List DeadLetter) (rs : List WorkRow) (w : WorkRow)
      → Unique rs
      → find (has_work work) rs ≡ some w
      → w.status ≢ failed
      → All (Waiting limit work ls) rs
      → All (Buried limit ls) rs
  Waiting-alive work ls [] w u f alive h = tt
  Waiting-alive work ls (r ∷ rs) w (fresh, u) f alive (v, h) = elim (string_eq.dec r.work_id work) [
    | yes p ↦
        let same : r ≡ w = ground (arith, p, f) in
        (λ e. absurd (alive (rw⁻¹ same e)), Waiting-absent work ls rs (rw p at fresh) h)
    | no p ↦ (
      λ e. let (le, m) = v e in (le, elim m [ inl own ↦ absurd (p own) | inr b ↦ b ]),
      Waiting-alive work ls rs w u (ground (arith, p, f)) alive h,
    )
  ]

  Waiting-weaken :
      (work : String) (ls : List DeadLetter) (rs : List WorkRow)
      → All (Buried limit ls) rs
      → All (Waiting limit work ls) rs
  Waiting-weaken work ls [] h = tt
  Waiting-weaken work ls (r ∷ rs) (b, h) =
      ((λ e. let (le, m) = b e in (le, inr m)), Waiting-weaken work ls rs h)

  not_running : (b : Bool) → (if b then failed else queued) ≢ running
  not_running true e = cc
  not_running false e = cc

  pub mark_work_failed-leaves :
      (work worker : String) (delay : ℕ) (error : Value) (now : ℕ)
      → Keeps
          (IsQueue limit polls)
          (mark_work_failed work worker limit delay error now)
          (Released work)
  unfolding mark_work_failed
  mark_work_failed-leaves work worker delay error now db q =
      let f = released limit delay error now in
      let rows = update_where (held work worker) f db.queue in
      let unique : Unique rows =
        Unique-update_where (held work worker) f (λ r. refl) db.queue q.unique in
      let locks : All (Lock polls) rows =
        All-update_where (Lock polls) (held work worker) f db.queue
          (λ r h l. free (not_running (leb limit r.attempts)) refl refl) q.locks in
      let waiting : All (Waiting limit work db.dead_letters) rows =
        All-update_where (Waiting limit work db.dead_letters) (held work worker) f db.queue
          (λ r h w. released-Waiting work worker delay error now db.dead_letters r h)
          (Waiting-weaken work db.dead_letters db.queue q.failures) in
      elim (Option-cases (find (held work worker) db.queue)) [
        | inl h ↦ rw (h, update-none work worker f db.queue h) q
        | inr (r, h) ↦
            let found : find (has_work work) rows ≡ some (f r) =
              find-update_where (λ (q : WorkRow). q.work_id) (held work worker) f (λ q. refl) work
                db.queue
              ∙ rw (held_row work worker db.queue r q.unique h)
                  (ground (arith, find_holds (held work worker) db.queue r h)) in
            elim (Bool-cases (leb limit r.attempts)) [
              | inl last ↦
                  rw (h, last)
                    (record {
                      unique = unique;
                      locks = locks;
                      failures = waiting;
                      row = (f r, found, rw last refl);
                      spent = q.spent;
                    })
              | inr again ↦
                  let alive : (f r).status ≢ failed = λ e. cc (rw again at e) in
                  rw (h, again)
                    (record {
                      unique = unique;
                      locks = locks;
                      failures =
                          Waiting-alive work db.dead_letters rows (f r) unique found alive waiting;
                      spent = q.spent;
                    })
            ]
      ]

  pub insert_dead_letter-keeps :
      (work : String) (error : Value) (worker : String) (now : ℕ)
      → Keeps
          (IsWaiting limit polls work)
          (insert_dead_letter work error worker now)
          (λ u. IsQueue limit polls)
  unfolding insert_dead_letter
  insert_dead_letter-keeps work error worker now db w =
      let (r, h, e) = w.row in
      elim (Option-cases (job_row db r.job_id)) [
        | inl k ↦ rw (h, k, insert_dead_letter) tt
        | inr (j, k) ↦
            rw (h, k, insert_dead_letter)
              (record {
                unique = w.unique;
                locks = w.locks;
                failures =
                    Buried-append limit work db.dead_letters _ db.queue
                      (ground (arith, find_holds (has_work work) db.queue r h)) w.failures;
                spent =
                    All-append (λ l. limit ≤ l.attempts) db.dead_letters _ w.spent
                      (
                        (All-find (Waiting limit work db.dead_letters) (has_work work) db.queue r
                            w.failures h e).0,
                        tt,
                      );
              })
      ]
