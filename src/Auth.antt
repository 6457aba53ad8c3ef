-- ===== src/Auth.antt =====
-- edc_translation/auth.py: principals, roles and scopes, and what refuses a request.
pub mod Sets
pub mod Times
pub mod Text
pub mod Hashing
pub mod Tokens
pub mod Store
pub mod Session
pub mod Middleware
pub mod Routes
use edctranslation_public.Prelude.{
  String, ◌<>◌, Bool, Option, none, some, List, [], ◌∷◌, ◌++◌, ◌==◌, contains, string_eq,
  if◌then◌else◌,
}
use edctranslation_public.Prelude.Dict
use edctranslation_public.Prelude.Dict.{Dict}
use edctranslation_public.Prelude.Errors.{Result, ok, err, guard, Exception}
use edctranslation_public.Auth.Sets.{frozenset}

abbrev pub disabled : String
disabled = "disabled"

abbrev pub jwt_ldap : String
jwt_ldap = "jwt_ldap"

abbrev pub oidc : String
oidc = "oidc"

-- An `AuthError` with its message, told apart from the other exceptions that a call lets through.
pub data AuthFailure : Type 0 where
  auth_error : String → AuthFailure
  raised : Exception → AuthFailure

pub record Principal : Type 0 where
  pub subject : String
  pub tenant_id : String
  pub roles : List String
  pub scopes : List String
  pub auth_type : String
  pub token_id : Option String

abbrev pub production_auth_modes : List String
production_auth_modes = jwt_ldap ∷ []

abbrev pub role_scopes : Dict String (List String)
role_scopes =
    ("viewer", frozenset ("translation:read" ∷ "evidence:read" ∷ "models:read" ∷ []))
    ∷ (
      "translator",
      frozenset ("translation:read" ∷ "translation:submit" ∷ "evidence:read" ∷ "models:read" ∷ []),
    )
    ∷ (
      "reviewer",
      frozenset ("translation:read" ∷ "reviews:write" ∷ "evidence:read" ∷ "models:read" ∷ []),
    )
    ∷ (
      "tenant_admin",
      frozenset (
          "translation:read" ∷ "translation:submit" ∷ "reviews:write" ∷ "tenant:policy:read"
          ∷ "tenant:policy:write" ∷ "tokens:write" ∷ "audit:read" ∷ "evidence:read" ∷ "models:read"
          ∷ []),
    )
    ∷ ("model_admin", frozenset ("models:read" ∷ "models:write" ∷ "audit:read" ∷ []))
    ∷ []

abbrev pub mcp_tool_scopes : Dict String String
mcp_tool_scopes =
    ("translation_list_engines", "models:read")
    ∷ ("translation_submit_bundle", "translation:submit")
    ∷ ("translation_submit_text", "translation:submit")
    ∷ ("translation_get_job_status", "translation:read")
    ∷ ("translation_get_bundle", "translation:read")
    ∷ ("translation_score_pair", "translation:read")
    ∷ ("translation_validate_model_bundle", "models:write")
    ∷ ("translation_get_evidence_bundle", "evidence:read")
    ∷ ("translation_validate_custody", "evidence:read")
    ∷ ("translation_live_smoke", "models:read")
    ∷ ("translation_rank_local_models", "models:read")
    ∷ ("translation_discover_env", "audit:read")
    ∷ ("translation_release_readiness_status", "audit:read")
    ∷ []

abbrev pub concat : List (List String) → List String
concat [] = []
concat (xs ∷ xss) = xs ++ concat xss

unfoldable pub disabled_auth_principal : String → Principal
disabled_auth_principal tenant_id = record {
  subject = "local-dev-disabled-auth";
  tenant_id = tenant_id;
  roles = frozenset ("tenant_admin" ∷ "model_admin" ∷ []);
  scopes = frozenset (concat (Dict.values role_scopes));
  auth_type = disabled;
  token_id = none;
}

-- The scopes that the loop of `scopes_for_roles` gathers, in the order of its updates.
abbrev pub granted : List String → List String
granted [] = []
granted (role ∷ roles) = elim (Dict.lookup role role_scopes) [
  | none ↦ granted roles
  | some scopes ↦ scopes ++ granted roles
]

unfoldable pub scopes_for_roles : List String → List String
scopes_for_roles roles = frozenset (granted roles)

abbrev pub lacks_scope : String → String
lacks_scope scope = "principal lacks required scope: " <> scope

unfoldable pub require_scope : Principal → String → Result AuthFailure (Unit {0})
require_scope principal scope =
    guard (contains principal.scopes scope) (auth_error (lacks_scope scope))

unfoldable pub require_mcp_tool_scope : Principal → String → Result AuthFailure (Unit {0})
require_mcp_tool_scope principal tool_name = elim (Dict.lookup tool_name mcp_tool_scopes) [
  | none ↦ err (auth_error ("unknown MCP tool for auth mapping: " <> tool_name))
  | some scope ↦ require_scope principal scope
]

-- What the two texts are that `str.strip` and `str.lower` give, and Python's `repr` of a text.
pub record Texts : Type 0 where
  pub strip : String → String
  pub lower : String → String
  pub repr : String → String

module _ (texts : Texts) where
  abbrev pub other_tenant : Principal → String → String
  other_tenant principal tenant_id =
      "principal tenant "
      <> texts.repr principal.tenant_id
      <> " cannot access "
      <> texts.repr tenant_id

  unfoldable pub require_tenant : Principal → String → Result AuthFailure (Unit {0})
  require_tenant principal tenant_id =
      guard (principal.tenant_id == tenant_id) (auth_error (other_tenant principal tenant_id))

  unfoldable pub is_production_auth_mode : String → Bool
  is_production_auth_mode mode = contains production_auth_modes (texts.lower (texts.strip mode))

  unfoldable pub require_production_auth_mode : String → Result AuthFailure (Unit {0})
  require_production_auth_mode mode =
      let normalized = texts.lower (texts.strip mode) in
      if normalized == disabled
      then err (auth_error "disabled auth is dev-only and cannot satisfy production evidence")
      else guard (contains production_auth_modes normalized)
          (auth_error ("unsupported production auth mode: " <> mode))
