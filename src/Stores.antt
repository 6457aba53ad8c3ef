-- ===== src/Stores.antt =====
-- edc_translation/stores.py: what the stores of tokens and audit events offer, and the stores in
-- memory. Each method holds the store's lock, so a method is one step.
pub mod Contract
use edctranslation_public.Prelude.{
  String, ◌≡◌, Option, none, some, List, [], ◌∷◌, ◌++◌, keep, string_eq,
}
use edctranslation_public.Prelude.Dict
use edctranslation_public.Prelude.Dict.{Dict}
use edctranslation_public.Prelude.Errors.{Result, ok, err, Exception, key_error}
use edctranslation_public.Json.{Value, null, text, dict, fields, Payload}
use edctranslation_public.Auth.Tokens.{ApiTokenRecord, AuditEvent}
use edctranslation_public.Auth.Store.{is_asked, filter_events}

-- The two stores that authentication uses, as steps on a state that may
-- raise.
pub record TokenStore (E S : Type 0) : Type 0 where
  pub save : ApiTokenRecord → S → Result E ApiTokenRecord × S
  pub list : Option String → S → Result E (List ApiTokenRecord)
  pub get : String → S → Result E ApiTokenRecord

pub record AuditStore (E S : Type 0) : Type 0 where
  pub save_event : AuditEvent → S → Result E AuditEvent × S
  pub list_events : Option String → Option String → S → Result E (List AuditEvent)

pub record ResultRecord : Type 0 where
  pub job_id : String
  pub document_id : String
  pub status : String
  pub result_ref : Option String
  pub translation_bundle : Value
  pub error : Value
  pub created_at : String
  pub updated_at : String
  pub metadata : Payload

abbrev pub optional_text : Option String → Value
optional_text none = null
optional_text (some s) = text s

unfoldable pub result_to_dict : ResultRecord → Payload
result_to_dict r =
    ("job_id", text r.job_id)
    ∷ ("document_id", text r.document_id)
    ∷ ("status", text r.status)
    ∷ ("result_ref", optional_text r.result_ref)
    ∷ ("translation_bundle", r.translation_bundle)
    ∷ ("error", r.error)
    ∷ ("created_at", text r.created_at)
    ∷ ("updated_at", text r.updated_at)
    ∷ ("metadata", dict (fields r.metadata))
    ∷ []

-- `self._records[key]`
abbrev pub item_of {ℓ} : {A : Type ℓ} → String → Dict String A → Result Exception A
item_of key records = elim (Dict.lookup key records) [ none ↦ err (key_error key) | some r ↦ ok r ]

abbrev pub Results : Type 0
Results = Dict String ResultRecord

unfoldable pub save_result : ResultRecord → Results → ResultRecord × Results
save_result r records = (r, Dict.insert r.job_id r records)

unfoldable pub get_result : String → Results → Result Exception ResultRecord
get_result job_id records = item_of job_id records

unfoldable pub list_results : Results → List ResultRecord
list_results records = Dict.values records

abbrev pub Tokens : Type 0
Tokens = Dict String ApiTokenRecord

unfoldable pub save_token : ApiTokenRecord → Tokens → Result Exception ApiTokenRecord × Tokens
save_token r records = (ok r, Dict.insert r.token_id r records)

unfoldable pub list_tokens : Option String → Tokens → Result Exception (List ApiTokenRecord)
list_tokens tenant_id records =
    ok (keep (λ r. is_asked tenant_id r.tenant_id) (Dict.values records))

unfoldable pub get_token : String → Tokens → Result Exception ApiTokenRecord
get_token token_id records = item_of token_id records

unfoldable pub save_event :
    AuditEvent → List AuditEvent → Result Exception AuditEvent × List AuditEvent
save_event event events = (ok event, events ++ event ∷ [])

unfoldable pub list_events :
    Option String → Option String → List AuditEvent → Result Exception (List AuditEvent)
list_events tenant_id event_type events = ok (filter_events tenant_id event_type events)

abbrev pub Bundles : Type 0
Bundles = Dict String Payload

unfoldable pub save_evidence : String → Payload → Bundles → Payload × Bundles
save_evidence job_id bundle bundles = (bundle, Dict.insert job_id bundle bundles)

unfoldable pub get_evidence : String → Bundles → Result Exception Payload
get_evidence job_id bundles = item_of job_id bundles

abbrev pub memory_tokens : TokenStore Exception Tokens
memory_tokens = record { save = save_token; list = list_tokens; get = get_token }

abbrev pub memory_audit : AuditStore Exception (List AuditEvent)
memory_audit = record { save_event = save_event; list_events = list_events }
