-- ===== src/Worker/Process/Total.antt =====
-- When `TranslationWorker.process` has a result, and what the result says.
use edctranslation_public.Prelude.{
  String, ◌≡◌, refl, Option, none, some, [], ◌∷◌, arith, Option-cases, inl, inr, string_eq,
  Bool-cases, ◌<>◌,
}
use edctranslation_public.Prelude.Dict
use edctranslation_public.Prelude.Errors.{Result, ok, err, Exception, ◌>>=◌, Result-cases}
use edctranslation_public.Json.{Value, text, null, truthy, str, get_or, text_or, Payload, Runtime}
use edctranslation_public.Jobs.WorkItem.{
  TranslationWorkItem, validate, document_id, resolved_job_id, resolved_work_id,
}
use edctranslation_public.Worker.Results
use edctranslation_public.Worker.Results.{TranslationWorkerResult, translation_bundle_schema}
use edctranslation_public.Worker.Process.{error_payload, Services, process}

text_or-ok :
    (o : Option String) (r : Result Exception String) (d : String)
    → r ≡ ok d
    → (a : String) × (text_or o ok r ≡ ok a)
text_or-ok none r d h = (d, h)
text_or-ok (some s) r d h = elim (string_eq.dec s "") [
  | yes e ↦ (d, ground (arith, h))
  | no n ↦ (s, ground arith)
]

abbrev answer :
    TranslationWorkItem
    → String
    → String
    → String
    → String
    → Option Payload
    → Option Payload
    → Payload
    → TranslationWorkerResult
answer item job work document status bundle error metadata = record {
  job_id = job;
  work_id = work;
  document_id = document;
  status = status;
  target_language = item.target_language;
  provider_id = item.provider_id;
  tenant_id = item.tenant_id;
  translation_bundle = bundle;
  error = error;
  metadata = metadata;
}

module _ (py : Runtime) where
  document_id_lem :
      (item : TranslationWorkItem) (x : Value)
      → Dict.lookup "document_id" item.document_bundle ≡ some x
      → document_id py item ≡ ok (str py x)
  unfolding document_id
  document_id_lem item x h = ground (arith, h)

  document_id-ok :
      (item : TranslationWorkItem)
      → validate item ≡ ok tt
      → (d : String) × (document_id py item ≡ ok d)
  unfolding validate document_id
  document_id-ok item v = elim (Option-cases (Dict.lookup "document_id" item.document_bundle)) [
    | inl h ↦ absurd (cc (rw (h, validate) at v))
    | inr (x, h) ↦ (str py x, document_id_lem item x h)
  ]

  resolved_job_id-ok :
      (item : TranslationWorkItem)
      → validate item ≡ ok tt
      → (j : String) × (resolved_job_id py item ≡ ok j)
  unfolding resolved_job_id
  resolved_job_id-ok item v =
      let known = get_or item.metadata "job_id" null in
      let (d, own) = document_id-ok item v in
      elim (Bool-cases (truthy known)) [
        | inl t ↦
            rw (t, resolved_job_id) (text_or-ok item.job_id (ok (str py known)) (str py known) refl)
        | inr f ↦ rw (f, resolved_job_id) (text_or-ok item.job_id (document_id py item) d own)
      ]

  resolved_work_id-ok :
      (item : TranslationWorkItem)
      → validate item ≡ ok tt
      → (w : String) × (resolved_work_id py item ≡ ok w)
  unfolding resolved_work_id
  resolved_work_id-ok item v =
      let (j, own) = resolved_job_id-ok item v in
      text_or-ok item.work_id (do job ← resolved_job_id py item; ok (job <> ":document"))
        (j <> ":document") (rw own)

  module _ (services : Services) where
    -- What the result of an item says: whose it is, and how its translation ended.
    abbrev pub Answers : TranslationWorkItem → TranslationWorkerResult → Type 0
    Answers item r =
        (resolved_job_id py item ≡ ok r.job_id)
        × (resolved_work_id py item ≡ ok r.work_id)
        × (document_id py item ≡ ok r.document_id)
        × (elim (services.translate item) [
          | err e ↦
              (r.status ≡ "failed")
              × (r.translation_bundle ≡ none)
              × (r.error ≡ some (error_payload e))
          | ok bundle ↦
              (r.status ≡ "succeeded") × (r.translation_bundle ≡ some bundle) × (r.error ≡ none)
        ])

    -- Processing an item that has a document id returns a result, whatever the translation raises,
    -- provided that a bundle which the translation returns passes its schema. The result names the
    -- item's job, work and document, and it is a success with the bundle or a failure with the
    -- error, as the translation ended.
    pub process-Answers :
        (item : TranslationWorkItem)
        → validate item ≡ ok tt
        → ((bundle : Payload)
            → services.translate item ≡ ok bundle
            → services.check bundle translation_bundle_schema ≡ ok tt)
        → (r : TranslationWorkerResult) × (process py services item ≡ ok r) × Answers item r
    unfolding process Results.succeeded Results.failed
    process-Answers item v good =
        let (job, j) = resolved_job_id-ok item v in
        let (work, w) = resolved_work_id-ok item v in
        let (document, d) = document_id-ok item v in
        elim (Result-cases (services.translate item)) [
          | inl (bundle, t) ↦ (
            answer item job work document "succeeded" (some bundle) none
                (("output_contract", text translation_bundle_schema) ∷ []),
            rw (v, process, t, good bundle t, j, w, d) refl,
            (j, w, d, rw t (refl, refl, refl)),
          )
          | inr (e, t) ↦ (
            answer item job work document "failed" none (some (error_payload e)) [],
            rw (v, process, t, j, w, d) refl,
            (j, w, d, rw t (refl, refl, refl)),
          )
        ]
