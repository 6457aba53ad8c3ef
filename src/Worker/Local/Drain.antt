-- ===== src/Worker/Local/Drain.antt =====
-- What `run_until_idle` and `run_forever` do on a local queue.
use edctranslation_public.Prelude.{
  ℕ, zero, suc, ◌+◌, ◌-◌, ◌≤◌, ◌<◌, ◌≡◌, refl, ap, ◌∙◌, Bool, true, false, not, Option, none, some,
  List, [], Bool-cases, inl, inr, ◌||◌, ◌∷◌, ◌++◌, map, append-nil, append_assoc, arith, leb, ltb,
  length, length-append, take, drop, keep, All, ◌==◌, string_eq,
}
use edctranslation_public.Prelude.Errors.{Result, ok, Exception}
use edctranslation_public.Json.{ℤ, pos, Runtime}
use edctranslation_public.Jobs.WorkItem.{TranslationWorkItem}
use edctranslation_public.Worker.Results.{TranslationWorkerResult}
use edctranslation_public.Worker.Process.{Services, process, settle, finish, run_once}
use edctranslation_public.Worker.Local.{LocalWorkQueue, poll, ack, nack, local}
use edctranslation_public.Worker.Loop.{
  limit_reached, limit_of, limit_refused, is_negative, idle_loop, run_until_idle,
}

-- What a limit lets through once `done` items are done, and what it leaves.
abbrev pub served {ℓ} : {A : Type ℓ} → Option ℕ → ℕ → List A → List A
served none done xs = xs
served (some m) done xs = take (m - done) xs

abbrev pub left {ℓ} : {A : Type ℓ} → Option ℕ → ℕ → List A → List A
left none done xs = []
left (some m) done xs = drop (m - done) xs

module _ {ℓ} {A : Type ℓ} where
  served-empty : (limit : Option ℕ) (done : ℕ) → served {A = A} limit done [] ≡ []
  served-empty none done = refl
  served-empty (some m) done = take-empty (m - done)
    where
      take-empty : (n : ℕ) → take {A = A} n [] ≡ []
      take-empty zero = refl
      take-empty (suc n) = refl

  left-empty : (limit : Option ℕ) (done : ℕ) → left {A = A} limit done [] ≡ []
  left-empty none done = refl
  left-empty (some m) done = drop-empty (m - done)
    where
      drop-empty : (n : ℕ) → drop {A = A} n [] ≡ []
      drop-empty zero = refl
      drop-empty (suc n) = refl

  -- At the limit nothing more is served.
  served-reached :
      (limit : Option ℕ) (done : ℕ) (xs : List A)
      → limit_reached limit done ≡ true
      → (served limit done xs ≡ []) × (left limit done xs ≡ xs)
  served-reached none done xs h = cc
  served-reached (some m) done xs h = let e : m - done ≡ 0 = ground arith in (rw e refl, rw e refl)

  -- Below the limit the next item is.
  served-next :
      (limit : Option ℕ) (done : ℕ) (x : A) (xs : List A)
      → limit_reached limit done ≡ false
      → (served limit done (x ∷ xs) ≡ x ∷ served limit (done + 1) xs)
        × (left limit done (x ∷ xs) ≡ left limit (done + 1) xs)
  served-next none done x xs h = (refl, refl)
  served-next (some m) done x xs h =
      let e : m - done ≡ suc (m - (done + 1)) = ground arith in (rw e refl, rw e refl)

  keep-first : (p : A → Bool) (x : A) (xs : List A) → keep p (x ∷ []) ++ keep p xs ≡ keep p (x ∷ xs)
  keep-first p x xs = elim (Bool-cases (p x)) [ inl h ↦ rw h | inr h ↦ rw h ]

abbrev pub is_success : TranslationWorkerResult → Bool
is_success r = r.status == "succeeded"

module _ (acked nacked : List TranslationWorkerResult) where
  -- The queue once `results` have been settled and `rest` is still waiting.
  abbrev pub after : List TranslationWorkerResult → List TranslationWorkItem → LocalWorkQueue
  after results rest = record {
    items = rest;
    acked = acked ++ keep is_success results;
    nacked = nacked ++ keep (λ r. not (is_success r)) results;
  }

abbrev pub queue_of :
    List TranslationWorkItem
    → List TranslationWorkerResult
    → List TranslationWorkerResult
    → LocalWorkQueue
queue_of items acked nacked = record { items = items; acked = acked; nacked = nacked }

module _ (py : Runtime) (services : Services)
    (outcome : TranslationWorkItem → TranslationWorkerResult) where
  abbrev pub IsProcessed : TranslationWorkItem → Type 0
  IsProcessed item = process py services item ≡ ok (outcome item)

  module _ (acked nacked : List TranslationWorkerResult) where
    settle_lem :
        (item : TranslationWorkItem) (result : TranslationWorkerResult)
        (rest : List TranslationWorkItem)
        → settle py services local item result (queue_of rest acked nacked)
          ≡ (ok tt, after acked nacked (result ∷ []) rest)
    unfolding settle ack nack
    settle_lem item result rest = elim (Bool-cases (is_success result)) [
      | inl s ↦ rw (s, settle, append-nil)
      | inr s ↦ rw (s, settle, append-nil)
    ]

    run_once-item :
        (item : TranslationWorkItem) (rest : List TranslationWorkItem)
        → IsProcessed item
        → run_once py services local (queue_of (item ∷ rest) acked nacked)
          ≡ (ok (some (outcome item)), after acked nacked (outcome item ∷ []) rest)
    unfolding run_once poll finish
    run_once-item item rest p = rw (p, run_once, poll, finish, settle_lem item (outcome item) rest)

    -- Polls of an empty queue end the loop with what it has.
    idle_loop-empty :
        (fuel k : ℕ) (limit : Option ℕ) (idle : ℕ) (results : List TranslationWorkerResult)
        → idle ≤ k
        → k < fuel + idle
        → idle_loop py services local fuel k limit idle results (queue_of [] acked nacked)
          ≡ some (ok results, queue_of [] acked nacked)
    unfolding idle_loop run_once poll
    idle_loop-empty zero k limit idle results below h = absurd (omega arith)
    idle_loop-empty (suc fuel) k limit idle results below h =
        elim (Bool-cases (leb k idle || limit_reached limit (length results))) [
          | inl stop ↦ rw (stop, idle_loop)
          | inr go ↦
              rw (go, idle_loop)
                (idle_loop-empty fuel k limit (idle + 1) results (ground arith) (omega arith))
        ]

  idle_loop_lem :
      (items : List TranslationWorkItem) (acked nacked : List TranslationWorkerResult) (fuel k : ℕ)
      (limit : Option ℕ) (results : List TranslationWorkerResult)
      → 0 < k
      → length items + k < fuel
      → All IsProcessed items
      → let done = length results in
        idle_loop py services local fuel k limit 0 results (queue_of items acked nacked)
        ≡ some (
          ok (results ++ map outcome (served limit done items)),
          after acked nacked (map outcome (served limit done items)) (left limit done items),
        )
  unfolding idle_loop
  idle_loop_lem [] acked nacked fuel k limit results below enough ps =
      rw
        (
          served-empty limit (length results),
          left-empty limit (length results),
          append-nil results,
          append-nil acked,
          append-nil nacked,
        )
        (idle_loop-empty acked nacked fuel k limit 0 results (omega arith) (omega arith))
  idle_loop_lem (x ∷ xs) acked nacked zero k limit results below enough ps = absurd (omega arith)
  idle_loop_lem (x ∷ xs) acked nacked (suc fuel) k limit results below enough (p, ps) =
      elim (Bool-cases (limit_reached limit (length results))) [
        | inl stop ↦
            let (s, l) = served-reached limit (length results) (x ∷ xs) stop in
            rw (s, l, stop, idle_loop, append-nil results, append-nil acked, append-nil nacked)
              (ground arith)
        | inr go ↦
            let (s, l) = served-next limit (length results) x xs go in
            let early : leb k 0 ≡ false = ground arith in
            rw (s, l, go, early, idle_loop, run_once-item acked nacked x xs p)
              (rw
                (ap
                  (λ (t : Result Exception (Option TranslationWorkerResult) × LocalWorkQueue). t.1)
                  (run_once-item acked nacked x xs p))
                (idle_loop_lem xs (acked ++ keep is_success (outcome x ∷ []))
                    (nacked ++ keep (λ r. not (is_success r)) (outcome x ∷ [])) fuel k limit
                    (results ++ outcome x ∷ []) (omega arith) (omega arith) ps
                  ∙ (rw
                      (
                        append_assoc results,
                        append_assoc acked,
                        append_assoc nacked,
                        length-append results,
                        keep-first is_success,
                        keep-first (λ r. not (is_success r)),
                      )
                      refl)))
      ]

  -- On a local queue whose items are all processed without an escaping exception, with at least one
  -- idle poll and arguments that the loop accepts, and with more fuel than items and idle polls,
  -- `run_until_idle` ends: it returns the results of the first items in the order of their arrival,
  -- as many as the limit allows, has acknowledged just the successes and refused just the failures
  -- among them, and leaves the other items waiting, or none without a limit.
  pub run_until_idle-drains :
      (items : List TranslationWorkItem) (acked nacked : List TranslationWorkerResult) (fuel k : ℕ)
      (interval : ℤ) (max_items : Option ℤ)
      → 0 < k
      → is_negative interval ≡ false
      → limit_refused max_items ≡ false
      → length items + k < fuel
      → All IsProcessed items
      → let limit = limit_of max_items in
        run_until_idle py services local fuel
          (pos k)
          interval
          max_items
          (queue_of items acked nacked)
        ≡ some (
          ok (map outcome (served limit 0 items)),
          after acked nacked (map outcome (served limit 0 items)) (left limit 0 items),
        )
  unfolding run_until_idle
  run_until_idle-drains items acked nacked fuel k interval max_items positive i m enough ps =
      let accepted : ltb k 1 ≡ false = ground arith in
      rw (accepted, i, m, run_until_idle)
        (idle_loop_lem items acked nacked fuel k (limit_of max_items) [] positive enough ps)
