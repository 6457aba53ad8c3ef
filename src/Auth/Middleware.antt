-- ===== src/Auth/Middleware.antt =====
-- edc_translation/auth_middleware.py: who a request comes from, and whether it reaches its handler.
pub mod Laws
use edctranslation_public.Prelude.{
  String, ◌<>◌, ◌||◌, Option, none, some, List, [], ◌∷◌, contains, ◌==◌, string_eq, not,
  if◌then◌else◌, starts_with, ℕ, zero, suc, nat_eq, map, keep,
}
use edctranslation_public.Prelude.Errors.{Result, ok, err, ◌>>=◌, Exception}
use edctranslation_public.Json.{ℤ, Runtime}
use edctranslation_public.Jobs.Files.{Codec}
use edctranslation_public.Auth.{
  AuthFailure, auth_error, raised, Principal, Texts, disabled, jwt_ldap, oidc,
  disabled_auth_principal, require_tenant, other_tenant,
}
use edctranslation_public.Auth.Sets.{frozenset}
use edctranslation_public.Auth.Hashing.{Crypto, verify_api_token}
use edctranslation_public.Auth.Tokens.{success, audit_event, principal_from_api_token}
use edctranslation_public.Auth.Store.{File, principal_from_token, used, lift}
use edctranslation_public.Auth.Session.{principal_from_session_jwt}
use edctranslation_public.Stores.{TokenStore, AuditStore}
use Prim.Native.Char.{Char, code}

-- What FastAPI gives of a request; a header's name is looked up without regard to case.
pub record Request : Type 0 where
  pub method : String
  pub path : String
  pub header : String → Option String

-- A `JSONResponse` with its status and detail, or the request handed on with its principal, if one
-- was attached; `crashed` is an exception that leaves the middleware.
pub data Outcome : Type 0 where
  response : ℕ → String → Outcome
  call_next : Option Principal → Outcome
  crashed : Exception → Outcome

-- The environment, the clock of each step, and how the PostgreSQL stores are opened: each on the
-- state `S` of the database.
pub record Host (S : Type 0) : Type 1 where
  pub getenv : String → Option String
  pub now : ℤ
  pub make_token_store : Result AuthFailure (TokenStore AuthFailure S)
  pub make_audit_store : Result AuthFailure (AuditStore AuthFailure S)

abbrev pub or_default : String → Option String → String
or_default d none = d
or_default d (some s) = s

abbrev onto : Char → List String → List String
onto c [] = String.◌∷◌ c "" ∷ []
onto c (s ∷ ss) = String.◌∷◌ c s ∷ ss

-- `auth_header.removeprefix("Bearer ")`, once the prefix is there.
abbrev pub drop_text : ℕ → String → String
drop_text zero s = s
drop_text (suc n) String.[] = ""
drop_text (suc n) (String.◌∷◌ c s) = drop_text n s

-- `s.split(",")`
abbrev pub split_commas : String → List String
split_commas String.[] = "" ∷ []
split_commas (String.◌∷◌ c s) =
    let rest = split_commas s in if code c == b',' then "" ∷ rest else onto c rest

abbrev pub unavailable : AuthFailure
unavailable = auth_error "configured postgres auth store is unavailable"

abbrev pub public_paths : List String
public_paths = "/health" ∷ "/healthz" ∷ "/readyz" ∷ "/docs" ∷ "/openapi.json" ∷ []

abbrev pub guarded_environments : List String
guarded_environments = "production" ∷ "prod" ∷ "approved_staging" ∷ "staging" ∷ []

abbrev pub options : String
options = "OPTIONS"

abbrev pub postgres : String
postgres = "postgres"

-- The failure that the first `try` turns into its answer.
unfoldable pub fail_closed : Result AuthFailure Principal → Result AuthFailure (Option Principal)
fail_closed (ok p) = ok (some p)
fail_closed (err (auth_error message)) = ok none
fail_closed (err (raised e)) = err unavailable

-- The answer of a credential that is refused by an `AuthError` alone.
unfoldable pub or_none : Result AuthFailure Principal → Result AuthFailure (Option Principal)
or_none (ok p) = ok (some p)
or_none (err (auth_error message)) = ok none
or_none (err (raised e)) = err (raised e)

module _ (py : Runtime) (library : Texts) (json : Codec) (lib : Crypto) {S : Type 0}
    (host : Host S) where
  -- What a request may change: the database, and the file of the JSON store.
  pub record World : Type 0 where
    pub database : S
    pub store_file : File py library json lib

  abbrev pub env : String → String → String
  env name default = or_default default (host.getenv name)

  abbrev pub stripped : String → String → String
  stripped name default = library.strip (env name default)

  abbrev pub mode : String
  mode = library.lower (stripped "EDC_AUTH_MODE" disabled)

  -- The two writes after a token was accepted, whose failures are swallowed.
  unfoldable pub mirror_use : TokenStore AuthFailure S → Principal → String → S → S
  mirror_use store p id s =
      let s' : S = elim (store.get id s) [
        | err e ↦ s
        | ok r ↦ (store.save (used host.now r) s).1
      ] in
      elim host.make_audit_store [
        | err e ↦ s'
        | ok audit ↦
            (audit.save_event (audit_event "api_token.used" success p id none host.now) s').1
      ]

  -- The token that the PostgreSQL store admits, with the state that its writes leave.
  unfoldable pub postgres_principal : String → S → Result AuthFailure Principal × S
  postgres_principal token s =
      let answer : Result AuthFailure (TokenStore AuthFailure S × Principal) = (do
        store ← host.make_token_store
        records ← store.list none s
        p ← principal_from_api_token lib token records host.now
        ok (store, p)) in
      elim answer [
        | err e ↦ (err e, s)
        | ok (store, p) ↦ (
          ok p,
          elim p.token_id [ none ↦ s | some id ↦ if id == "" then s else mirror_use store p id s ],
        )
      ]

  -- `EDC_STATIC_API_TOKEN_HASH` and its principal.
  unfoldable pub static_principal : String → Result AuthFailure (Option Principal)
  static_principal token =
      let static_hash = stripped "EDC_STATIC_API_TOKEN_HASH" "" in
      if static_hash == "" then ok none else (do
        same ← lift (verify_api_token lib token static_hash)
        ok (
            if same
            then some (record {
              subject = env "EDC_STATIC_API_TOKEN_SUBJECT" "static-api-token";
              tenant_id = env "EDC_STATIC_API_TOKEN_TENANT" "standalone";
              roles = [];
              scopes = frozenset (
                  keep (λ s. not (s == ""))
                    (map library.strip (split_commas (env "EDC_STATIC_API_TOKEN_SCOPES" ""))));
              auth_type = "api_token";
              token_id = some "static";
            })
            else none))

  unfoldable pub session_principal : String → Result AuthFailure (Option Principal)
  session_principal token =
      let jwt_secret = stripped "EDC_JWT_SECRET" "" in
      if jwt_secret == ""
      then ok none
      else or_none (principal_from_session_jwt py lib token jwt_secret host.now)

  -- The credentials that do not come from the JSON store, in their order.
  unfoldable pub static_or_session : String → Result AuthFailure (Option Principal)
  static_or_session token =
      let session = session_principal token in
      elim (static_principal token) [
        | err e ↦ err e
        | ok (some p) ↦ ok (some p)
        | ok none ↦ session
      ]

  unfoldable pub json_store_principal :
      String → World → Result AuthFailure (Option Principal) × World
  json_store_principal token w =
      if stripped "EDC_TOKEN_AUDIT_STORE_PATH" "" == ""
      then (ok none, w)
      else (let (r, file) = principal_from_token py library json lib token host.now w.store_file in
          (or_none r, record w { store_file = file }))

  unfoldable pub principal_from_token_text :
      String → World → Result AuthFailure (Option Principal) × World
  principal_from_token_text token w =
      if library.lower (stripped "EDC_TRANSLATION_AUTH_STORE_BACKEND" "") == postgres
      then (let (r, s) = postgres_principal token w.database in
          (fail_closed r, record w { database = s }))
      else (let (r, w') = json_store_principal token w in
          elim r [
            | err e ↦ (err e, w')
            | ok (some p) ↦ (ok (some p), w')
            | ok none ↦ (static_or_session token, w')
          ])

  unfoldable pub principal_from_authorization :
      Request → World → Result AuthFailure (Option Principal) × World
  principal_from_authorization request w =
      let auth_header = or_default "" (request.header "Authorization") in
      if not (starts_with auth_header "Bearer ")
      then (ok none, w)
      else (let token = library.strip (drop_text 7 auth_header) in
          if token == "" then (ok none, w) else principal_from_token_text token w)

  -- The tenant that a request names must be the principal's.
  unfoldable pub check_tenant : Request → Principal → Outcome
  check_tenant request principal = elim (request.header "X-EDC-Tenant-ID") [
    | none ↦ call_next (some principal)
    | some tenant_id ↦
        if tenant_id == ""
        then call_next (some principal)
        else elim (require_tenant library principal tenant_id) [
          | ok u ↦ call_next (some principal)
          | err e ↦ response 403 (other_tenant library principal tenant_id)
        ]
  ]

  -- The request outcome of an authenticated mode.
  unfoldable pub authenticated : Request → Result AuthFailure (Option Principal) → Outcome
  authenticated request (err (auth_error message)) = response 503 message
  authenticated request (err (raised e)) = crashed e
  authenticated request (ok none) = response 401 "Authentication required"
  authenticated request (ok (some principal)) = check_tenant request principal

  unfoldable pub dispatch : Request → World → Outcome × World
  dispatch request w =
      if request.method == options || contains public_paths request.path
      then (call_next none, w)
      else if mode == disabled
      then (
        if contains guarded_environments (library.lower (stripped "EDC_DEPLOYMENT_ENV" "local"))
            then response 500 "disabled auth is rejected outside local/dev"
            else call_next (
                some (
                  disabled_auth_principal
                    (or_default "standalone" (request.header "X-EDC-Tenant-ID")))),
        w,
      )
      else if mode == oidc
      then (response 501 "EDC_AUTH_MODE=oidc requires OIDC/JWKS validation before use", w)
      else if not (mode == jwt_ldap)
      then (response 500 ("Unsupported EDC_AUTH_MODE: " <> mode), w)
      else (let (r, w') = principal_from_authorization request w in (authenticated request r, w'))
