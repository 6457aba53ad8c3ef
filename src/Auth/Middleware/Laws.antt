-- ===== src/Auth/Middleware/Laws.antt =====
-- Which requests reach their handlers, and as whom.
use edctranslation_public.Prelude.{
  ◌≡◌, refl, ap, sym, Bool, true, false, ◌||◌, ◌&&◌, not, if◌then◌else◌, Option, none, some, ◌==◌,
  string_eq, contains, starts_with, Bool-cases, Option-cases, inl, inr, ◌⊎◌, ==_iff,
}
use edctranslation_public.Prelude.Errors.{Result, ok, err, Exception}
use edctranslation_public.Json.{Runtime}
use edctranslation_public.Jobs.Files.{Codec}
use edctranslation_public.Auth.{
  AuthFailure, auth_error, raised, Principal, Texts, disabled, jwt_ldap, oidc,
  disabled_auth_principal, require_tenant,
}
use edctranslation_public.Auth.Hashing.{Crypto}
use edctranslation_public.Auth.Middleware.{
  Request, response, call_next, Host, World, or_default, stripped, mode, options, public_paths,
  guarded_environments, postgres, drop_text, dispatch, authenticated, check_tenant,
  principal_from_authorization, principal_from_token_text, postgres_principal, fail_closed,
  unavailable,
}

module _ (py : Runtime) (library : Texts) (json : Codec) (lib : Crypto) {S : Type 0}
    (host : Host S) where
  -- A request that needs no principal.
  abbrev pub is_public : Request → Bool
  is_public request = request.method == options || contains public_paths request.path

  -- The tenant that a request names, where it names one, is the principal's.
  abbrev pub SameTenant : Request → Principal → Type 0
  SameTenant request p =
      (request.header "X-EDC-Tenant-ID" ≡ none)
      ⊎ ((request.header "X-EDC-Tenant-ID" ≡ some "")
          ⊎ (request.header "X-EDC-Tenant-ID" ≡ some p.tenant_id))

  -- Why a request was handed on, with the principal that it was handed on with.
  abbrev pub IsAdmitted : Request → World py library json lib host → Option Principal → Type 0
  IsAdmitted request w p =
      ((is_public request ≡ true) × (p ≡ none))
      ⊎ ((mode py library json lib host ≡ disabled)
          × (contains guarded_environments
                (library.lower (stripped py library json lib host "EDC_DEPLOYMENT_ENV" "local"))
              ≡ false)
          × (p
              ≡ some (
                  disabled_auth_principal
                    (or_default "standalone" (request.header "X-EDC-Tenant-ID")))))
      ⊎ ((mode py library json lib host ≡ jwt_ldap)
          × (q : Principal) × (p ≡ some q)
          × ((principal_from_authorization py library json lib host request w).0 ≡ ok (some q))
          × SameTenant request q)

  check_tenant-SameTenant :
      (request : Request) (q : Principal) (p : Option Principal)
      → check_tenant py library json lib host request q ≡ call_next p
      → (p ≡ some q) × SameTenant request q
  unfolding check_tenant require_tenant
  check_tenant-SameTenant request q p h = elim (Option-cases (request.header "X-EDC-Tenant-ID")) [
    | inl n ↦ (cc (rw (n, check_tenant) at h), inl n)
    | inr (tenant, s) ↦ elim (Bool-cases (tenant == "")) [
      | inl e ↦
          (cc (rw (s, e, check_tenant) at h), inr (inl (rw s (ap some ((==_iff tenant "").0 e)))))
      | inr f ↦ elim (Bool-cases (q.tenant_id == tenant)) [
        | inl y ↦ (
          cc (rw (s, f, y, check_tenant, require_tenant) at h),
          inr (inr (rw s (ap some (sym ((==_iff q.tenant_id tenant).0 y))))),
        )
        | inr n ↦ absurd (cc (rw (s, f, n, check_tenant, require_tenant) at h))
      ]
    ]
  ]

  authenticated-call_next :
      (request : Request) (r : Result AuthFailure (Option Principal)) (p : Option Principal)
      → authenticated py library json lib host request r ≡ call_next p
      → (q : Principal) × (p ≡ some q) × (r ≡ ok (some q)) × SameTenant request q
  unfolding authenticated
  authenticated-call_next request (err (auth_error message)) p h = absurd (cc h)
  authenticated-call_next request (err (raised e)) p h = absurd (cc h)
  authenticated-call_next request (ok none) p h = absurd (cc h)
  authenticated-call_next request (ok (some q)) p h =
      let (same, tenant) = check_tenant-SameTenant request q p h in (q, same, refl, tenant)

  -- A request reaches its handler only as a public one, or as the local principal with disabled
  -- authentication outside the guarded environments, or as a principal that its credentials stand
  -- for and whose tenant is the one that the request names, if it names one.
  pub dispatch-IsAdmitted :
      (request : Request) (w : World py library json lib host) (p : Option Principal)
      → (dispatch py library json lib host request w).0 ≡ call_next p
      → IsAdmitted request w p
  unfolding dispatch
  dispatch-IsAdmitted request w p h = elim (Bool-cases (is_public request)) [
    | inl free ↦ inl (free, sym (cc (rw (free, dispatch) at h)))
    | inr shut ↦ elim (Bool-cases (mode py library json lib host == disabled)) [
      | inl d ↦
          elim (Bool-cases (
            contains guarded_environments
              (library.lower (stripped py library json lib host "EDC_DEPLOYMENT_ENV" "local")))) [
                | inl g ↦ absurd (cc (rw (shut, d, g, dispatch) at h))
                | inr l ↦ inr (
                    inl (
                      (==_iff (mode py library json lib host) disabled).0 d,
                      l,
                      sym (cc (rw (shut, d, l, dispatch) at h)),
                    ))
              ]
      | inr e ↦ elim (Bool-cases (mode py library json lib host == oidc)) [
        | inl o ↦ absurd (cc (rw (shut, e, o, dispatch) at h))
        | inr n ↦ elim (Bool-cases (mode py library json lib host == jwt_ldap)) [
          | inr u ↦ absurd (cc (rw (shut, e, n, u, dispatch) at h))
          | inl j ↦
              let (q, same, admitted, tenant) =
                authenticated-call_next request _ p (rw (shut, e, n, j, dispatch) at h) in
              inr (
                inr (
                  (==_iff (mode py library json lib host) jwt_ldap).0 j,
                  q,
                  same,
                  admitted,
                  tenant,
                ))
        ]
      ]
    ]
  ]

  -- The header `Authorization` holds `Bearer ` and a text that is not blank.
  abbrev pub has_bearer : Request → Bool
  has_bearer request =
      starts_with (or_default "" (request.header "Authorization")) "Bearer "
      && not (library.strip (drop_text 7 (or_default "" (request.header "Authorization"))) == "")

  -- The credentials of a request, when the PostgreSQL store is chosen and cannot be opened.
  authorization-unavailable :
      (request : Request) (w : World py library json lib host) (e : Exception)
      → (library.lower (stripped py library json lib host "EDC_TRANSLATION_AUTH_STORE_BACKEND" "")
          == postgres)
        ≡ true
      → host.make_token_store ≡ err (raised e)
      → principal_from_authorization py library json lib host request w
        ≡ ((if has_bearer request then err unavailable else ok none), w)
  unfolding principal_from_authorization principal_from_token_text postgres_principal fail_closed
  authorization-unavailable request w e b m =
      elim (Bool-cases (starts_with (or_default "" (request.header "Authorization")) "Bearer ")) [
        | inr n ↦ rw (n, principal_from_authorization) refl
        | inl y ↦
            elim (Bool-cases (
              library.strip (drop_text 7 (or_default "" (request.header "Authorization"))) == "")) [
                | inl t ↦ rw (y, t, principal_from_authorization) refl
                | inr f ↦
                    rw
                      (
                        y, f, b, m, principal_from_authorization, principal_from_token_text,
                        postgres_principal,
                      )
                      refl
              ]
      ]

  -- With `EDC_AUTH_MODE=jwt_ldap` and the PostgreSQL store chosen but impossible to open, no
  -- protected request reaches its handler, whatever static hash or secret is configured: the answer
  -- is 503 to a request with a bearer token and 401 to one without, and no store is written.
  pub dispatch-unavailable :
      (request : Request) (w : World py library json lib host) (e : Exception)
      → is_public request ≡ false
      → mode py library json lib host ≡ jwt_ldap
      → (library.lower (stripped py library json lib host "EDC_TRANSLATION_AUTH_STORE_BACKEND" "")
          == postgres)
        ≡ true
      → host.make_token_store ≡ err (raised e)
      → dispatch py library json lib host request w ≡ (
        (if has_bearer request
            then response 503 "configured postgres auth store is unavailable"
            else response 401 "Authentication required"),
        w,
      )
  unfolding dispatch authenticated string_eq
  dispatch-unavailable request w e shut m b c = elim (Bool-cases (has_bearer request)) [
    | inl y ↦ rw (shut, m, authorization-unavailable request w e b c, y, dispatch) refl
    | inr n ↦ rw (shut, m, authorization-unavailable request w e b c, n, dispatch) refl
  ]
