-- ===== src/Worker/Process.antt =====
-- edc_translation/worker.py: `TranslationWorker.process` and `run_once`, over any queue.
pub mod Total
use edctranslation_public.Prelude.{
  String, Bool, Option, none, some, List, [], ◌∷◌, ◌==◌, string_eq, if◌then◌else◌,
}
use edctranslation_public.Prelude.Errors.{Result, ok, err, ◌>>=◌, ◌>>◌, Exception}
use edctranslation_public.Json.{text, dict, Payload, fields, Runtime}
use edctranslation_public.Jobs.WorkItem.{TranslationWorkItem, validate}
use edctranslation_public.Worker.Results
use edctranslation_public.Worker.Results.{TranslationWorkerResult}

-- What `translate_document_bundle` raises: a `RoutingError` with its diagnostics, or another
-- exception, by its text.
pub data TranslateError : Type 0 where
  routing_error : String → Payload → TranslateError
  other_error : String → TranslateError

-- `auto_route_error_payload(…)["error"]` of edc_translation/errors.py
abbrev pub auto_route_error : String → Payload → Payload
auto_route_error message diagnostics =
    ("code", text "auto_route_unavailable")
    ∷ ("message", text message)
    ∷ ("routing_diagnostics", dict (fields diagnostics))
    ∷ []

-- The error that the two `except` clauses of `process` report.
unfoldable pub error_payload : TranslateError → Payload
error_payload (routing_error message diagnostics) = auto_route_error message diagnostics
error_payload (other_error message) =
    ("code", text "translation_worker_failed") ∷ ("message", text message) ∷ []

-- What a queue offers its worker. A method may raise, and what it wrote before stays written.
pub record WorkQueue {ℓ} : Type (ℓ + 1) where
  pub State : Type ℓ
  pub poll : State → Result Exception (Option TranslationWorkItem) × State
  pub ack :
      TranslationWorkItem → TranslationWorkerResult → State → Result Exception (Unit {0}) × State
  pub nack :
      TranslationWorkItem → TranslationWorkerResult → State → Result Exception (Unit {0}) × State

-- What the worker calls: the translation, and the check of its bundle against the schema.
pub record Services : Type 0 where
  pub translate : TranslationWorkItem → Result TranslateError Payload
  pub check : Payload → String → Result Exception (Unit {0})

module _ (py : Runtime) (services : Services) where
  unfoldable pub process : TranslationWorkItem → Result Exception TranslationWorkerResult
  process item = do
    validate item
    elim (services.translate item) [
      | err e ↦ Results.failed py item (error_payload e)
      | ok bundle ↦ Results.succeeded py services.check item bundle
    ]

  module _ {ℓ} (Q : WorkQueue {ℓ}) where
    -- `ack` or `nack`, by the status of the result.
    unfoldable pub settle :
        TranslationWorkItem
        → TranslationWorkerResult
        → Q.State
        → Result Exception (Unit {0}) × Q.State
    settle item result s =
        if result.status == "succeeded" then Q.ack item result s else Q.nack item result s

    unfoldable pub finish :
        TranslationWorkItem → Q.State → Result Exception (Option TranslationWorkerResult) × Q.State
    finish item s = elim (process item) [
      | err e ↦ (err e, s)
      | ok result ↦
          let (settled, s') = settle item result s in
          (elim settled [ err e ↦ err e | ok u ↦ ok (some result) ], s')
    ]

    unfoldable pub run_once : Q.State → Result Exception (Option TranslationWorkerResult) × Q.State
    run_once s =
        let (polled, s') = Q.poll s in
        elim polled [
          | err e ↦ (err e, s')
          | ok taken ↦ elim taken [ none ↦ (ok none, s') | some item ↦ finish item s' ]
        ]
