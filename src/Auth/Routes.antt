-- ===== src/Auth/Routes.antt =====
-- edc_translation/auth_middleware.py: what a route asks of the principal of its request, and the
-- tenant that the request acts for.
pub mod Laws
use edctranslation_public.Prelude.{
  ℕ, String, Bool, Option, none, some, [], ◌∷◌, ◌==◌, string_eq, not, if◌then◌else◌,
}
use edctranslation_public.Prelude.Errors.{Result, ok, err}
use edctranslation_public.Json.{ℤ, Value, null, text, text_or}
use edctranslation_public.Auth.{
  AuthFailure, Principal, Texts, disabled, disabled_auth_principal, require_scope, lacks_scope,
  other_tenant,
}
use edctranslation_public.Auth.Tokens.{AuditEvent, success, denied, audit_event}
use edctranslation_public.Auth.Middleware.{or_default}
use edctranslation_public.Stores.{AuditStore}

-- A request's state after the middleware ran: the principal, where one was attached.
unfoldable pub current_principal :
    Texts → (String → Option String) → Option Principal → Result (ℕ × String) Principal
current_principal library getenv (some principal) = ok principal
current_principal library getenv none =
    if not
      (library.lower (library.strip (or_default disabled (getenv "EDC_AUTH_MODE"))) == disabled)
    then err (401, "Authentication required")
    else ok (disabled_auth_principal "standalone")

unfoldable pub require_route_scope : Principal → String → Result (ℕ × String) (Unit {0})
require_route_scope principal scope = elim (require_scope principal scope) [
  | ok u ↦ ok u
  | err e ↦ err (403, lacks_scope scope)
]

-- The value that a tenant's audit event shows for the requested tenant.
abbrev pub requested_value : Option String → Value
requested_value none = null
requested_value (some s) = text s

abbrev pub resolved_event : Principal → String → Option String → String → ℤ → AuditEvent
resolved_event principal resource requested source now =
    audit_event "tenant.resolved" success principal resource
      (some (("requested", requested_value requested) ∷ ("source", text source) ∷ [])) now

abbrev pub tenant_denied_event : Principal → String → ℤ → AuditEvent
tenant_denied_event principal requested now =
    audit_event "tenant.denied" denied principal requested
      (some (("principal_tenant", text principal.tenant_id) ∷ [])) now

-- `requested_tenant or principal.tenant_id`
abbrev pub effective_tenant : Principal → Option String → String
effective_tenant principal requested = text_or requested (λ s. s) principal.tenant_id

module _ (library : Texts) {S : Type 0} (audit : AuditStore AuthFailure S) where
  -- A failing audit store is ignored.
  unfoldable pub audited : AuditEvent → S → S
  audited event s = (audit.save_event event s).1

  unfoldable pub bind_request_tenant :
      Principal → Option String → ℤ → S → Result (ℕ × String) String × S
  bind_request_tenant principal requested now s =
      if principal.auth_type == disabled
      then (
        ok (effective_tenant principal requested),
        audited
            (resolved_event principal (effective_tenant principal requested) requested
              "disabled-override" now)
            s,
      )
      else text_or requested
          (λ tenant.
            if tenant == principal.tenant_id
            then (
              ok principal.tenant_id,
              audited (resolved_event principal principal.tenant_id requested "principal" now) s,
            )
            else (
              err (403, other_tenant library principal tenant),
              audited (tenant_denied_event principal tenant now) s,
            ))
          (
            ok principal.tenant_id,
            audited (resolved_event principal principal.tenant_id requested "principal" now) s,
          )
