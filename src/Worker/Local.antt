-- ===== src/Worker/Local.antt =====
-- edc_translation/worker.py: `LocalWorkQueue`, the queue of tests and local smoke runs.
pub mod Drain
use edctranslation_public.Prelude.{Option, none, some, List, [], ◌∷◌, ◌++◌}
use edctranslation_public.Prelude.Errors.{Result, ok, err, Exception}
use edctranslation_public.Jobs.WorkItem.{TranslationWorkItem, validate}
use edctranslation_public.Worker.Results.{TranslationWorkerResult}
use edctranslation_public.Worker.Process.{WorkQueue}

pub record LocalWorkQueue : Type 0 where
  pub items : List TranslationWorkItem
  pub acked : List TranslationWorkerResult
  pub nacked : List TranslationWorkerResult

unfoldable pub push :
    TranslationWorkItem → LocalWorkQueue → Result Exception (Unit {0}) × LocalWorkQueue
push item q = elim (validate item) [
  | err e ↦ (err e, q)
  | ok u ↦ (ok tt, record q { items = q.items ++ item ∷ [] })
]

unfoldable pub poll :
    LocalWorkQueue → Result Exception (Option TranslationWorkItem) × LocalWorkQueue
poll q = elim q.items [
  | [] ↦ (ok none, q)
  | item ∷ rest ↦ (ok (some item), record q { items = rest })
]

unfoldable pub ack :
    TranslationWorkItem
    → TranslationWorkerResult
    → LocalWorkQueue
    → Result Exception (Unit {0}) × LocalWorkQueue
ack item result q = (ok tt, record q { acked = q.acked ++ result ∷ [] })

unfoldable pub nack :
    TranslationWorkItem
    → TranslationWorkerResult
    → LocalWorkQueue
    → Result Exception (Unit {0}) × LocalWorkQueue
nack item result q = (ok tt, record q { nacked = q.nacked ++ result ∷ [] })

abbrev pub local : WorkQueue {0}
local = record { State = LocalWorkQueue; poll = poll; ack = ack; nack = nack }
