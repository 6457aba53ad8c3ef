-- ===== src/Tests/Requests.antt =====
-- Runs of the middleware: requests with a session token, and with a store that cannot be opened.
use edctranslation_public.Prelude.{
  String, ◌<>◌, ◌≡◌, ◌≢◌, refl, true, false, none, some, List, [], ◌∷◌, ◌++◌, ◌==◌, string_eq,
  nat_eq, ◌⊎◌, Option, if◌then◌else◌,
}
use edctranslation_public.Prelude.Dict
use edctranslation_public.Prelude.Errors.{ok, err, type_error}
use edctranslation_public.Json.{pos, int_of, iterate, str}
use edctranslation_public.Jobs.WorkItem.{strings}
use edctranslation_public.Auth.{
  AuthFailure, raised, jwt_ldap, disabled, other_tenant, require_tenant,
}
use edctranslation_public.Auth.Sets.{frozenset, adjoin}
use edctranslation_public.Auth.Text.{cut, rstrip}
use edctranslation_public.Auth.Times.{◌+ℤ◌}
use edctranslation_public.Auth.Hashing.{b64_bytes, b64_json, json_from_b64}
use edctranslation_public.Auth.Tokens.{AuditEvent}
use edctranslation_public.Auth.Session.{
  create_session_jwt, principal_from_session_jwt, signature, three_parts, read_segments,
  principal_of_claims,
}
use edctranslation_public.Auth.Session.Laws.{in_session}
use edctranslation_public.Auth.Middleware.{
  Request, Host, stripped, mode, postgres, World, call_next, response, dispatch, authenticated,
  check_tenant, principal_from_authorization, principal_from_token_text, json_store_principal,
  static_or_session, session_principal, static_principal, or_none,
}
use edctranslation_public.Auth.Middleware.Laws.{
  IsAdmitted, is_public, has_bearer, dispatch-IsAdmitted, dispatch-unavailable,
}
use edctranslation_public.Json.Sorting.{sorted_keys, sort_keys, insert_field}
use edctranslation_public.Auth.Routes.{
  bind_request_tenant, audited, resolved_event, tenant_denied_event,
}
use edctranslation_public.Auth.Routes.Laws.{bind_request_tenant-tenant_id}
use edctranslation_public.Stores.{AuditStore}
use edctranslation_public.Tests.Fixtures.{py, codec}
use edctranslation_public.Tests.Crypto.{member, crypto, texts}

abbrev host : Dict.Dict String String → Host (List AuditEvent)
host settings = record {
  getenv = λ name. Dict.lookup name settings;
  now = pos 120;
  make_token_store = err (raised type_error);
  make_audit_store = err (raised type_error);
}

abbrev session_token : String
session_token = create_session_jwt py crypto member "key" (pos 60) (pos 100)

abbrev request : Request
request = record {
  method = "GET";
  path = "/jobs";
  header = λ name.
      Dict.lookup name
        (("Authorization", "Bearer " <> session_token) ∷ ("X-EDC-Tenant-ID", "acme") ∷ []);
}

abbrev sessions : Host (List AuditEvent)
sessions = host (("EDC_AUTH_MODE", "jwt_ldap") ∷ ("EDC_JWT_SECRET", "key") ∷ [])

abbrev world : World py texts codec crypto sessions
world = record { database = []; store_file = none }

admitted :
    (dispatch py texts codec crypto sessions request world).0 ≡ call_next (some (in_session member))
unfolding dispatch authenticated check_tenant principal_from_authorization principal_from_token_text
    json_store_principal static_or_session session_principal static_principal or_none require_tenant
    principal_from_session_jwt create_session_jwt signature three_parts read_segments
    principal_of_claims b64_bytes b64_json json_from_b64 cut rstrip frozenset adjoin strings str
    iterate int_of ◌+ℤ◌ Dict.lookup string_eq nat_eq sorted_keys sort_keys insert_field
admitted = refl

dispatch-IsAdmitted_example :
    IsAdmitted py texts codec crypto sessions request world (some (in_session member))
dispatch-IsAdmitted_example =
    dispatch-IsAdmitted py texts codec crypto sessions request world (some (in_session member))
      admitted

abbrev unopened : Host (List AuditEvent)
unopened = host (
    ("EDC_AUTH_MODE", "jwt_ldap")
    ∷ ("EDC_JWT_SECRET", "key")
    ∷ ("EDC_TRANSLATION_AUTH_STORE_BACKEND", "postgres")
    ∷ [])

abbrev unopened_world : World py texts codec crypto unopened
unopened_world = record { database = []; store_file = none }

not_public : is_public py texts codec crypto unopened request ≡ false
unfolding string_eq
not_public = refl

unopened-mode : mode py texts codec crypto unopened ≡ jwt_ldap
unfolding Dict.lookup string_eq
unopened-mode = refl

unopened_backend :
    (texts.lower (stripped py texts codec crypto unopened "EDC_TRANSLATION_AUTH_STORE_BACKEND" "")
      == postgres)
    ≡ true
unfolding Dict.lookup string_eq
unopened_backend = refl

dispatch-unavailable_example : dispatch py texts codec crypto unopened request unopened_world ≡ (
  (if has_bearer py texts codec crypto unopened request
      then response 503 "configured postgres auth store is unavailable"
      else response 401 "Authentication required"),
  unopened_world,
)
dispatch-unavailable_example =
    dispatch-unavailable py texts codec crypto unopened request unopened_world type_error not_public
      unopened-mode unopened_backend refl

abbrev audit : AuditStore AuthFailure (List AuditEvent)
audit = record {
  save_event = λ event events. (ok event, events ++ event ∷ []);
  list_events = λ tenant kind events. ok events;
}

not_disabled : (member.auth_type == disabled) ≡ false
unfolding string_eq
not_disabled = refl

abbrev requested : Option String
requested = some "other"

bind_request_tenant-tenant_id_example :
    (((requested ≡ none) ⊎ ((requested ≡ some "") ⊎ (requested ≡ some member.tenant_id)))
      × (bind_request_tenant texts audit member requested (pos 5) [] ≡ (
        ok member.tenant_id,
        audited texts audit
            (resolved_event member member.tenant_id requested "principal" (pos 5))
            [],
      )))
    ⊎ ((other : String) × (requested ≡ some other)
        × (other ≢ "")
        × (other ≢ member.tenant_id)
        × (bind_request_tenant texts audit member requested (pos 5) [] ≡ (
          err (403, other_tenant texts member other),
          audited texts audit (tenant_denied_event member other (pos 5)) [],
        )))
bind_request_tenant-tenant_id_example =
    bind_request_tenant-tenant_id texts audit member requested (pos 5) [] not_disabled
