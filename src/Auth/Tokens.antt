-- ===== src/Auth/Tokens.antt =====
-- edc_translation/auth.py: API tokens and audit events, with the dicts that they are stored as.
pub mod Laws
use edctranslation_public.Prelude.{
  String, ◌<>◌, ◌≡◌, Bool, true, false, Option, none, some, List, [], ◌∷◌, ◌==◌, string_eq, not,
  if◌then◌else◌,
}
use edctranslation_public.Prelude.Dict
use edctranslation_public.Prelude.Errors.{
  Result, ok, err, ◌>>=◌, Exception, value_error, type_error,
}
use edctranslation_public.Json.{
  ℤ, Value, null, whole, text, list, dict, nil, Payload, entries, fields, texts, Runtime, str,
  dict_of, iterate, int_of, get, get_or, index,
}
use edctranslation_public.Jobs.WorkItem.{strings}
use edctranslation_public.Auth.{AuthFailure, auth_error, raised, Principal, Texts}
use edctranslation_public.Auth.Sets.{frozenset}
use edctranslation_public.Auth.Times.{◌+ℤ◌, before}
use edctranslation_public.Auth.Hashing.{Crypto, hash_api_token, verify_api_token}

pub record ApiTokenRecord : Type 0 where
  pub token_id : String
  pub token_hash : String
  pub tenant_id : String
  pub scopes : List String
  pub created_by : String
  pub created_at : ℤ
  pub expires_at : Option ℤ
  pub revoked_at : Option ℤ
  pub last_used_at : Option ℤ

unfoldable pub is_active : ℤ → ApiTokenRecord → Bool
is_active now record_ = elim record_.revoked_at [
  | some at ↦ false
  | none ↦ elim record_.expires_at [ none ↦ true | some at ↦ before now at ]
]

abbrev pub optional_value : Option ℤ → Value
optional_value none = null
optional_value (some n) = whole n

unfoldable pub to_dict : ApiTokenRecord → Payload
to_dict r =
    ("token_id", text r.token_id)
    ∷ ("token_hash", text r.token_hash)
    ∷ ("tenant_id", text r.tenant_id)
    ∷ ("scopes", list (texts r.scopes))
    ∷ ("created_by", text r.created_by)
    ∷ ("created_at", whole r.created_at)
    ∷ ("expires_at", optional_value r.expires_at)
    ∷ ("revoked_at", optional_value r.revoked_at)
    ∷ ("last_used_at", optional_value r.last_used_at)
    ∷ []

pub data AuditOutcome : Type 0 where
  success : AuditOutcome
  denied : AuditOutcome
  error : AuditOutcome

pub record AuditEvent : Type 0 where
  pub event_type : String
  pub outcome : AuditOutcome
  pub tenant_id : String
  pub subject : String
  pub resource : String
  pub timestamp : ℤ
  pub details : Payload

abbrev pub outcome_text : AuditOutcome → String
outcome_text success = "success"
outcome_text denied = "denied"
outcome_text error = "error"

unfoldable pub event_to_dict : AuditEvent → Payload
event_to_dict event =
    ("event_type", text event.event_type)
    ∷ ("outcome", text (outcome_text event.outcome))
    ∷ ("tenant_id", text event.tenant_id)
    ∷ ("subject", text event.subject)
    ∷ ("resource", text event.resource)
    ∷ ("timestamp", whole event.timestamp)
    ∷ ("details", dict (fields event.details))
    ∷ []

unfoldable pub audit_event :
    String → AuditOutcome → Principal → String → Option Payload → ℤ → AuditEvent
audit_event event_type outcome principal resource details now = record {
  event_type = event_type;
  outcome = outcome;
  tenant_id = principal.tenant_id;
  subject = principal.subject;
  resource = resource;
  timestamp = now;
  details = elim details [ none ↦ [] | some d ↦ d ];
}

-- `v[key]`, where only a dict has texts for keys.
abbrev pub subscript : Value → String → Result Exception Value
subscript (dict fs) key = index (entries fs) key
subscript _ key = err type_error

abbrev pub success_text : String
success_text = "success"

abbrev pub denied_text : String
denied_text = "denied"

abbrev pub error_text : String
error_text = "error"

module _ (py : Runtime) where
  unfoldable pub optional_int : Value → Result Exception (Option ℤ)
  optional_int null = ok none
  optional_int v = do n ← int_of py v; ok (some n)

  unfoldable pub from_dict : Value → Result Exception ApiTokenRecord
  from_dict payload = do
    token_id ← subscript payload "token_id"
    token_hash ← subscript payload "token_hash"
    tenant_id ← subscript payload "tenant_id"
    scopes ← get payload "scopes" (list nil)
    scope_list ← iterate py scopes
    created_by ← subscript payload "created_by"
    created ← subscript payload "created_at"
    created_at ← int_of py created
    expires ← get payload "expires_at" null
    expires_at ← optional_int expires
    revoked ← get payload "revoked_at" null
    revoked_at ← optional_int revoked
    used ← get payload "last_used_at" null
    last_used_at ← optional_int used
    ok (record {
      token_id = str py token_id;
      token_hash = str py token_hash;
      tenant_id = str py tenant_id;
      scopes = frozenset (strings py scope_list);
      created_by = str py created_by;
      created_at = created_at;
      expires_at = expires_at;
      revoked_at = revoked_at;
      last_used_at = last_used_at;
    })

  -- `AuditOutcome(value)`
  unfoldable pub outcome_of : Texts → String → Result Exception AuditOutcome
  outcome_of library s =
      if s == success_text
      then ok success
      else if s == denied_text
      then ok denied
      else if s == error_text
      then ok error
      else err (value_error (library.repr s <> " is not a valid AuditOutcome"))

  unfoldable pub event_from_dict : Texts → Value → Result Exception AuditEvent
  event_from_dict library payload = do
    event_type ← subscript payload "event_type"
    outcome ← subscript payload "outcome"
    known ← outcome_of library (str py outcome)
    tenant_id ← subscript payload "tenant_id"
    subject ← subscript payload "subject"
    resource ← subscript payload "resource"
    time ← subscript payload "timestamp"
    timestamp ← int_of py time
    given ← get payload "details" (dict (fields []))
    details ← dict_of py given
    ok (record {
      event_type = str py event_type;
      outcome = known;
      tenant_id = str py tenant_id;
      subject = str py subject;
      resource = str py resource;
      timestamp = timestamp;
      details = details;
    })

-- The principal that a verified token stands for.
unfoldable pub principal_of : ApiTokenRecord → Principal
principal_of r = record {
  subject = r.created_by;
  tenant_id = r.tenant_id;
  roles = [];
  scopes = r.scopes;
  auth_type = "api_token";
  token_id = some r.token_id;
}

pub record IssuedApiToken : Type 0 where
  pub plaintext_token : String
  pub token_record : ApiTokenRecord

module _ (lib : Crypto) where
  -- `id_part` and `secret_part` are what `secrets.token_urlsafe` gives, `salt` what
  -- `secrets.token_bytes` gives.
  unfoldable pub issue_api_token :
      String → String → lib.Bytes → String → List String → String → Option ℤ → ℤ → IssuedApiToken
  issue_api_token id_part secret_part salt tenant_id scopes created_by ttl_seconds current =
      record {
        plaintext_token = "edc_" <> secret_part;
        token_record = record {
          token_id = "tok_" <> id_part;
          token_hash = hash_api_token lib ("edc_" <> secret_part) salt;
          tenant_id = tenant_id;
          scopes = frozenset scopes;
          created_by = created_by;
          created_at = current;
          expires_at = elim ttl_seconds [ none ↦ none | some ttl ↦ some (current +ℤ ttl) ];
          revoked_at = none;
          last_used_at = none;
        };
      }

  unfoldable pub principal_from_api_token :
      String → List ApiTokenRecord → ℤ → Result AuthFailure Principal
  principal_from_api_token token [] now = err (auth_error "API token was not found")
  principal_from_api_token token (r ∷ rs) now =
      let rest = principal_from_api_token token rs now in
      elim (verify_api_token lib token r.token_hash) [
        | err e ↦ err (raised e)
        | ok false ↦ rest
        | ok true ↦
            if not (is_active now r)
            then err (auth_error "API token is expired or revoked")
            else ok (principal_of r)
      ]
