-- ===== src/Tests/Local.antt =====
-- Runs of the local queues and stores.
use edctranslation_public.Prelude.{
  String, ◌<>◌, ◌≡◌, refl, some, [], ◌∷◌, ◌==◌, string_eq, nat_eq, if◌then◌else◌, arith,
}
use edctranslation_public.Prelude.Dict
use edctranslation_public.Prelude.Errors.{Result, ok, err, ◌>>=◌, Exception}
use edctranslation_public.Json.{pos, text, Payload, str}
use edctranslation_public.Jobs.Job.{
  TranslationJob, set_status, changed, to_dict, from_dict, from_dict-to_dict,
}
use edctranslation_public.Jobs.WorkItem.{
  TranslationWorkItem, validate, document_id, to_message, from_message,
}
use edctranslation_public.Jobs.WorkItem.RoundTrip.{settle, from_message-to_message}
use edctranslation_public.Jobs.Repository.{new_job}
use edctranslation_public.Jobs.Memory.{memory, memory-IsJobStore}
use edctranslation_public.Jobs.LocalQueue.{Draw, submit}
use edctranslation_public.Jobs.LocalQueue.Outcome.{finished_job, submit-finished}
use edctranslation_public.Jobs.Files.{Files, is_job_id, path, decode, read, write, update}
use edctranslation_public.Jobs.Files.Laws.{HoldsJobs, HoldsJobs-empty, write-HoldsJobs, read-update}
use edctranslation_public.Worker.Results.{TranslationWorkerResult}
use edctranslation_public.Worker.Process.{Services, TranslateError, other_error, process}
use edctranslation_public.Worker.Process.Total.{Answers, process-Answers}
use edctranslation_public.Worker.Loop.{run_until_idle}
use edctranslation_public.Worker.Local.{local}
use edctranslation_public.Worker.Local.Drain.{after, queue_of, run_until_idle-drains}
use edctranslation_public.Tests.Fixtures.{codec, py, item, bad_item, bundle, success}

from_message-to_message_example : (to_message py item >>= from_message py) ≡ settle py item
from_message-to_message_example = from_message-to_message py item

-- A translation that knows one language.
abbrev translate : TranslationWorkItem → Result TranslateError Payload
translate i = if i.target_language == "fr" then ok bundle else err (other_error "unknown language")

abbrev services : Services
services = record { translate = translate; check = λ b schema. ok tt }

item-validate : validate item ≡ ok tt
unfolding validate Dict.lookup string_eq
item-validate = refl

process-Answers_example :
    (r : TranslationWorkerResult) × (process py services item ≡ ok r) × Answers py services item r
process-Answers_example = process-Answers py services item item-validate (λ b e. refl)

bad_item-validate : validate bad_item ≡ ok tt
unfolding validate Dict.lookup string_eq
bad_item-validate = refl

abbrev result_or : Result Exception TranslationWorkerResult → TranslationWorkerResult
result_or r = elim r [ ok a ↦ a | err e ↦ success ]

result_or-ok :
    (x : Result Exception TranslationWorkerResult) (r : TranslationWorkerResult)
    → x ≡ ok r
    → x ≡ ok (result_or x)
result_or-ok x r h = rw h refl

-- A worker whose first item succeeds and whose second one fails, with a limit of three.
abbrev outcome : TranslationWorkItem → TranslationWorkerResult
outcome i = result_or (process py services i)

outcome_lem :
    (i : TranslationWorkItem) → validate i ≡ ok tt → process py services i ≡ ok (outcome i)
outcome_lem i v =
    let (r, h, a) = process-Answers py services i v (λ b e. refl) in result_or-ok _ r h

run_until_idle-drains_example :
    run_until_idle py services local 9
      (pos 2)
      (pos 0)
      (some (pos 3))
      (queue_of (item ∷ bad_item ∷ []) [] [])
    ≡ some (
      ok (outcome item ∷ outcome bad_item ∷ []),
      after [] [] (outcome item ∷ outcome bad_item ∷ []) [],
    )
run_until_idle-drains_example =
    run_until_idle-drains py services outcome (item ∷ bad_item ∷ []) [] [] 9 2 (pos 0)
      (some (pos 3)) (omega arith) refl refl (omega arith)
      (outcome_lem item item-validate, (outcome_lem bad_item bad_item-validate, tt))

abbrev job : TranslationJob
job = new_job "1f" "2026-01-01" "d1" "fr" "local" []

from_dict-to_dict_example : from_dict py (to_dict job) ≡ ok job
from_dict-to_dict_example = from_dict-to_dict py job

-- The in-memory store takes a submission.
abbrev draw : Draw
draw = record { hex = "1f"; created = "t1"; started = "t2"; finished = "t3" }

abbrev executor : TranslationWorkItem → Result String Payload
executor i = ok bundle

abbrev mapper : String → Payload
mapper e = ("message", text e) ∷ []

item-document_id : document_id py item ≡ ok "d1"
unfolding document_id Dict.lookup string_eq str
item-document_id = refl

submit-finished_example :
    let L = memory-IsJobStore in
    let (r, s') = submit py memory executor mapper draw item [] in
    (r ≡ ok (finished_job py memory L executor mapper draw item "d1"))
    × ((j : String)
        → L.view s' j ≡ (
            if j == ("trjob_" <> "1f")
            then some (finished_job py memory L executor mapper draw item "d1")
            else L.view [] j))
    × L.IsSound s'
unfolding memory-IsJobStore
submit-finished_example =
    submit-finished py memory memory-IsJobStore executor mapper draw item "d1" [] tt refl
      item-document_id

-- A directory with one job.
abbrev written : Files py codec
written = (write py codec job []).1

read-written : read py codec "trjob_1f" written ≡ ok job
unfolding read write path is_job_id decode Dict.lookup Dict.insert string_eq nat_eq from_dict
read-written = from_dict-to_dict py job

read-update_example :
    let (r, after_update) = update py codec "trjob_1f" (set_status "running" ∷ []) "t2" written in
    (r ≡ ok (changed (set_status "running" ∷ []) "t2" job))
    × ((j : String)
        → read py codec j after_update ≡ (
            if j == "trjob_1f"
            then ok (changed (set_status "running" ∷ []) "t2" job)
            else read py codec j written))
    × HoldsJobs py codec after_update
read-update_example =
    read-update py codec "trjob_1f" (set_status "running" ∷ []) "t2" job written
      (write-HoldsJobs py codec job [] (HoldsJobs-empty py codec)) read-written
