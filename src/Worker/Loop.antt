-- ===== src/Worker/Loop.antt =====
-- edc_translation/worker.py: `run_until_idle` and `run_forever`, over any queue. Sleeping between
-- polls changes no state and is left out; the interval is kept for its test.
use edctranslation_public.Prelude.{
  ℕ, zero, suc, ◌+◌, Bool, true, false, ◌||◌, Option, none, some, List, [], ◌∷◌, ◌++◌, ltb, leb,
  length, if◌then◌else◌,
}
use edctranslation_public.Prelude.Errors.{Result, ok, err, Exception, value_error}
use edctranslation_public.Json.{ℤ, pos, negsuc, Runtime}
use edctranslation_public.Worker.Results.{TranslationWorkerResult}
use edctranslation_public.Worker.Process.{WorkQueue, Services, run_once}

-- `n < 1` on an int, and the count that an accepted one stands for.
abbrev pub below_one : ℤ → Bool
below_one (pos n) = ltb n 1
below_one (negsuc n) = true

abbrev pub count_of : ℤ → ℕ
count_of (pos n) = n
count_of (negsuc n) = 0

abbrev pub is_negative : ℤ → Bool
is_negative (pos n) = false
is_negative (negsuc n) = true

-- `max_items is not None and done >= max_items`
abbrev pub limit_reached : Option ℕ → ℕ → Bool
limit_reached none done = false
limit_reached (some n) done = leb n done

abbrev pub limit_of : Option ℤ → Option ℕ
limit_of none = none
limit_of (some n) = some (count_of n)

abbrev pub limit_refused : Option ℤ → Bool
limit_refused none = false
limit_refused (some n) = below_one n

-- What a loop that ended gives back, or `none` where the fuel ran out first.
abbrev pub Outcome {ℓ} : Type ℓ → Type ℓ
Outcome S = Option (Result Exception (List TranslationWorkerResult) × S)

module _ {ℓ} (py : Runtime) (services : Services) (Q : WorkQueue {ℓ}) where
  -- The `while` of `run_until_idle`; `idle` is `idle_polls`.
  unfoldable pub idle_loop :
      ℕ → ℕ → Option ℕ → ℕ → List TranslationWorkerResult → Q.State → Outcome Q.State
  idle_loop zero max_idle max_items idle results s = none
  idle_loop (suc fuel) max_idle max_items idle results s =
      if leb max_idle idle || limit_reached max_items (length results)
      then some (ok results, s)
      else let (r, s') = run_once py services Q s in
        elim r [
          | err e ↦ some (err e, s')
          | ok taken ↦ elim taken [
            | none ↦ idle_loop fuel max_idle max_items (idle + 1) results s'
            | some result ↦ idle_loop fuel max_idle max_items 0 (results ++ result ∷ []) s'
          ]
        ]

  -- The tests of the arguments, and the loop.
  unfoldable pub run_until_idle : ℕ → ℤ → ℤ → Option ℤ → Q.State → Outcome Q.State
  run_until_idle fuel max_idle_polls interval max_items s =
      if below_one max_idle_polls
      then some (err (value_error "max_idle_polls must be at least 1"), s)
      else if is_negative interval
      then some (err (value_error "poll_interval_seconds must be non-negative"), s)
      else if limit_refused max_items
      then some (err (value_error "max_items must be at least 1 when provided"), s)
      else idle_loop fuel (count_of max_idle_polls) (limit_of max_items) 0 [] s

  -- The `while` of `run_forever`. `stops` lists what the stop flag answers at each test, and a
  -- loop whose flag has no further answer has been observed no longer. With a sink the results
  -- are handed to it (`sunk`) and not kept.
  unfoldable pub forever_loop :
      List Bool
      → Bool
      → Option ℕ
      → ℕ
      → List TranslationWorkerResult
      → List TranslationWorkerResult
      → Q.State
      → Option
          (Result Exception (List TranslationWorkerResult) × List TranslationWorkerResult × Q.State)
  forever_loop [] sink max_items processed results sunk s = none
  forever_loop (true ∷ stops) sink max_items processed results sunk s = some (ok results, sunk, s)
  forever_loop (false ∷ stops) sink max_items processed results sunk s =
      if limit_reached max_items processed
      then some (ok results, sunk, s)
      else let (r, s') = run_once py services Q s in
        elim r [
          | err e ↦ some (err e, sunk, s')
          | ok taken ↦ elim taken [
            | none ↦ forever_loop stops sink max_items processed results sunk s'
            | some result ↦
                forever_loop stops sink max_items (processed + 1)
                  (if sink then results else results ++ result ∷ [])
                  (if sink then sunk ++ result ∷ [] else sunk) s'
          ]
        ]

  unfoldable pub run_forever :
      List Bool
      → Bool
      → ℤ
      → Option ℤ
      → Q.State
      → Option
          (Result Exception (List TranslationWorkerResult) × List TranslationWorkerResult × Q.State)
  run_forever stops sink interval max_items s =
      if is_negative interval
      then some (err (value_error "poll_interval_seconds must be non-negative"), [], s)
      else if limit_refused max_items
      then some (err (value_error "max_items must be at least 1 when provided"), [], s)
      else forever_loop stops sink (limit_of max_items) 0 [] [] s
