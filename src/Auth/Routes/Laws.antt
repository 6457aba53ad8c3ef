-- ===== src/Auth/Routes/Laws.antt =====
-- The tenant and scopes that a route may rely on.
use edctranslation_public.Prelude.{
  String, ◌≡◌, ◌≢◌, refl, ap, false, Option, none, some, ◌==◌, string_eq, contains, if◌then◌else◌,
  ◌⊎◌, inl, inr, Bool-cases, ==_iff,
}
use edctranslation_public.Prelude.Errors.{ok, err}
use edctranslation_public.Json.{ℤ}
use edctranslation_public.Auth.{
  AuthFailure, Principal, Texts, disabled, require_scope, lacks_scope, other_tenant,
}
use edctranslation_public.Stores.{AuditStore}
use edctranslation_public.Auth.Routes.{
  bind_request_tenant, audited, resolved_event, tenant_denied_event, require_route_scope,
}

-- A route lets a principal through exactly if the scope is one of its scopes, and answers 403
-- otherwise.
pub require_route_scope_lem :
    (p : Principal) (scope : String)
    → require_route_scope p scope
      ≡ (if contains p.scopes scope then ok tt else err (403, lacks_scope scope))
unfolding require_route_scope require_scope
require_route_scope_lem p scope = elim (Bool-cases (contains p.scopes scope)) [
  | inl y ↦ rw (y, require_route_scope, require_scope) refl
  | inr n ↦ rw (n, require_route_scope, require_scope) refl
]

module _ (library : Texts) {S : Type 0} (audit : AuditStore AuthFailure S) where
  -- A principal of an authenticated mode is bound to its own tenant or refused with 403, and the
  -- audit store is told which: an absent, an empty and its own tenant are bound, any other one is
  -- refused.
  pub bind_request_tenant-tenant_id :
      (p : Principal) (requested : Option String) (now : ℤ) (s : S)
      → (p.auth_type == disabled) ≡ false
      → (((requested ≡ none) ⊎ ((requested ≡ some "") ⊎ (requested ≡ some p.tenant_id)))
          × (bind_request_tenant library audit p requested now s ≡ (
            ok p.tenant_id,
            audited library audit (resolved_event p p.tenant_id requested "principal" now) s,
          )))
        ⊎ ((other : String) × (requested ≡ some other)
            × (other ≢ "")
            × (other ≢ p.tenant_id)
            × (bind_request_tenant library audit p requested now s ≡ (
              err (403, other_tenant library p other),
              audited library audit (tenant_denied_event p other now) s,
            )))
  unfolding bind_request_tenant
  bind_request_tenant-tenant_id p none now s h = inl (inl refl, rw h refl)
  bind_request_tenant-tenant_id p (some t) now s h = elim (Bool-cases (t == "")) [
    | inl e ↦ inl (inr (inl (ap some ((==_iff t "").0 e))), rw (h, e) refl)
    | inr f ↦ elim (Bool-cases (t == p.tenant_id)) [
      | inl y ↦ inl (inr (inr (ap some ((==_iff t p.tenant_id).0 y))), rw (h, f, y) refl)
      | inr n ↦ inr (
        t,
        refl,
        (λ q. absurd (cc (f, (==_iff t "").1 q))),
        (λ q. absurd (cc (n, (==_iff t p.tenant_id).1 q))),
        rw (h, f, n) refl,
      )
    ]
  ]
