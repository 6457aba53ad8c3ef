-- ===== src/Auth/Store.antt =====
-- edc_translation/auth.py: `JsonTokenAuditStore`, tokens and audit events in one JSON file. Each
-- method holds the lock from its `_load` to its `_save`, so a method is one step on the file, which
-- `_save` replaces in one rename.
pub mod Laws
pub mod Authentication
pub mod Revoked
pub mod Revocation
use edctranslation_public.Prelude.{
  String, ◌<>◌, Bool, true, false, Option, none, some, List, [], ◌∷◌, ◌++◌, map, keep, ◌==◌,
  string_eq, not, if◌then◌else◌,
}
use edctranslation_public.Prelude.Errors.{Result, ok, err, ◌>>=◌, Exception, key_error}
use edctranslation_public.Json.{
  ℤ, Value, null, text, list, dict, nil, fields, items, Runtime, str, iterate, get, get_or,
}
use edctranslation_public.Json.Sorting.{sorted_keys}
use edctranslation_public.Jobs.Files.{Codec}
use edctranslation_public.Auth.{AuthFailure, auth_error, raised, Principal, Texts}
use edctranslation_public.Auth.Hashing.{Crypto, verify_api_token}
use edctranslation_public.Auth.Tokens.{
  ApiTokenRecord, is_active, to_dict, from_dict, AuditEvent, success, denied, event_to_dict,
  event_from_dict, audit_event, principal_of,
}

-- The dict that `_load` gives and `_save` takes.
pub record Document : Type 0 where
  pub tokens : List Value
  pub audit_events : List Value

abbrev pub token_value : ApiTokenRecord → Value
token_value r = dict (fields (to_dict r))

abbrev pub event_value : AuditEvent → Value
event_value event = dict (fields (event_to_dict event))

-- `ApiTokenRecord(..., revoked_at=current, ...)` of `revoke_token`
abbrev pub revoked : ℤ → ApiTokenRecord → ApiTokenRecord
revoked current r = record r { revoked_at = some current }

abbrev pub used : ℤ → ApiTokenRecord → ApiTokenRecord
used current r = record r { last_used_at = some current }

-- The loop of `revoke_token`: the records it writes, and the replacement it made last.
unfoldable pub revoke_loop :
    String → ℤ → List ApiTokenRecord → List ApiTokenRecord × Option ApiTokenRecord
revoke_loop token_id current [] = ([], none)
revoke_loop token_id current (r ∷ rs) =
    let (updated, replacement) = revoke_loop token_id current rs in
    if r.token_id == token_id
    then (
      revoked current r ∷ updated,
      elim replacement [ none ↦ some (revoked current r) | some last ↦ some last ],
    )
    else (r ∷ updated, replacement)

abbrev pub not_for_revocation : String → AuthFailure
not_for_revocation token_id = auth_error ("API token not found for revocation: " <> token_id)

abbrev pub expired_or_revoked : AuthFailure
expired_or_revoked = auth_error "API token is expired or revoked"

abbrev pub not_found : AuthFailure
not_found = auth_error "API token was not found"

-- The audit events of the three steps.
abbrev pub revocation_event : String → Principal → ℤ → AuditEvent
revocation_event token_id principal current =
    audit_event "api_token.revoked" success principal token_id none current

abbrev pub denied_event : ApiTokenRecord → ℤ → AuditEvent
denied_event r current =
    audit_event "api_token.denied" denied (principal_of r) r.token_id
      (some (("reason", text "expired_or_revoked") ∷ [])) current

abbrev pub used_event : ApiTokenRecord → ℤ → AuditEvent
used_event r current = audit_event "api_token.used" success (principal_of r) r.token_id none current

-- The tokens that `principal_from_token` writes: every record with the id of the found one becomes
-- the found one, used.
unfoldable pub with_used : ApiTokenRecord → ℤ → List ApiTokenRecord → List ApiTokenRecord
with_used found current records =
    map (λ item. if item.token_id == found.token_id then used current found else item) records

-- The tests of `list_audit_events`.
abbrev pub is_asked : Option String → String → Bool
is_asked none s = true
is_asked (some asked) s = s == asked

unfoldable pub filter_events : Option String → Option String → List AuditEvent → List AuditEvent
filter_events tenant_id event_type events =
    keep (λ event. is_asked event_type event.event_type)
      (keep (λ event. is_asked tenant_id event.tenant_id) events)

unfoldable pub find_token : String → List ApiTokenRecord → Result Exception ApiTokenRecord
find_token token_id [] = err (key_error ("API token not found: " <> token_id))
find_token token_id (r ∷ rs) =
    let rest = find_token token_id rs in if r.token_id == token_id then ok r else rest

abbrev pub lift {ℓ} : {A : Type ℓ} → Result Exception A → Result AuthFailure A
lift (ok a) = ok a
lift (err e) = err (raised e)

-- What `revoke_token` does after its loop.
unfoldable pub write_revoked :
    String
    → Principal
    → ℤ
    → Document
    → List ApiTokenRecord
    → Option ApiTokenRecord
    → Result AuthFailure (Result AuthFailure ApiTokenRecord × Document)
write_revoked token_id principal current payload updated none = err (not_for_revocation token_id)
write_revoked token_id principal current payload updated (some replacement) = ok (
  ok replacement,
  record {
    tokens = map token_value updated;
    audit_events =
        payload.audit_events ++ event_value (revocation_event token_id principal current) ∷ [];
  },
)

module _ (py : Runtime) (library : Texts) (json : Codec) (lib : Crypto) where
  -- The text of the file, where there is one.
  abbrev pub File : Type 0
  File = Option json.Text

  unfoldable pub load : File → Result Exception Document
  load none = ok (record { tokens = []; audit_events = [] })
  load (some content) = do
    payload ← json.loads content
    tokens ← iterate py (get_or payload "tokens" (list nil))
    events ← iterate py (get_or payload "audit_events" (list nil))
    ok (record { tokens = tokens; audit_events = events })

  -- `sort_keys=True` writes the sorted dict.
  unfoldable pub save : Document → File
  save document = some (
      json.dumps (
        sorted_keys (
          ("tokens", list (items document.tokens))
          ∷ ("audit_events", list (items document.audit_events))
          ∷ [])))

  -- `[ApiTokenRecord.from_dict(token) for token in tokens]`
  unfoldable pub records_of : List Value → Result Exception (List ApiTokenRecord)
  records_of [] = ok []
  records_of (v ∷ vs) = do r ← from_dict py v; rs ← records_of vs; ok (r ∷ rs)

  unfoldable pub events_of : List Value → Result Exception (List AuditEvent)
  events_of [] = ok []
  events_of (v ∷ vs) = do
    event ← event_from_dict py library v
    events ← events_of vs
    ok (event ∷ events)

  -- The tokens whose id is another one.
  unfoldable pub without : String → List Value → Result Exception (List Value)
  without token_id [] = ok []
  without token_id (token ∷ tokens) = do
    id ← get token "token_id" null
    rest ← without token_id tokens
    ok (if str py id == token_id then rest else token ∷ rest)

  -- The document that a step saves, and its result.
  abbrev pub writing :
      {A : Type 0}
      → File
      → Result AuthFailure (Result AuthFailure A × Document)
      → Result AuthFailure A × File
  writing file (err e) = (err e, file)
  writing file (ok (r, document)) = (r, save document)

  unfoldable pub save_token : ApiTokenRecord → File → Result AuthFailure ApiTokenRecord × File
  save_token r file = writing file (
      lift (do
        payload ← load file
        tokens ← without r.token_id payload.tokens
        ok (ok r, record payload { tokens = tokens ++ token_value r ∷ [] })))

  unfoldable pub list_tokens : Option String → File → Result Exception (List ApiTokenRecord)
  list_tokens tenant_id file = do
    payload ← load file
    records ← records_of payload.tokens
    ok (keep (λ r. is_asked tenant_id r.tenant_id) records)

  unfoldable pub record_audit_event : AuditEvent → File → Result AuthFailure AuditEvent × File
  record_audit_event event file = writing file (
      lift (do
        payload ← load file
        ok (
          ok event,
          record payload { audit_events = payload.audit_events ++ event_value event ∷ [] },
        )))

  unfoldable pub list_audit_events :
      Option String → Option String → File → Result Exception (List AuditEvent)
  list_audit_events tenant_id event_type file = do
    payload ← load file
    events ← events_of payload.audit_events
    ok (filter_events tenant_id event_type events)

  unfoldable pub revoke_token :
      String → Principal → ℤ → File → Result AuthFailure ApiTokenRecord × File
  revoke_token token_id principal current file = writing file (do
    payload ← lift (load file)
    records ← lift (records_of payload.tokens)
    let (updated, found) = revoke_loop token_id current records
    write_revoked token_id principal current payload updated found)

  -- The record at which the loop of `principal_from_token` ends.
  unfoldable pub first_verified : String → List ApiTokenRecord → Result AuthFailure ApiTokenRecord
  first_verified token [] = err not_found
  first_verified token (r ∷ rs) =
      let rest = first_verified token rs in
      elim (verify_api_token lib token r.token_hash) [
        | err e ↦ err (raised e)
        | ok false ↦ rest
        | ok true ↦ ok r
      ]

  unfoldable pub principal_from_token : String → ℤ → File → Result AuthFailure Principal × File
  principal_from_token token current file = writing file (do
    payload ← lift (load file)
    records ← lift (records_of payload.tokens)
    r ← first_verified token records
    ok (
        if not (is_active current r)
        then (
          err expired_or_revoked,
          record payload {
            audit_events = payload.audit_events ++ event_value (denied_event r current) ∷ [];
          },
        )
        else (
          ok (principal_of r),
          record {
            tokens = map token_value (with_used r current records);
            audit_events = payload.audit_events ++ event_value (used_event r current) ∷ [];
          },
        )))

  unfoldable pub get_token : String → File → Result Exception ApiTokenRecord
  get_token token_id file = do records ← list_tokens none file; find_token token_id records
