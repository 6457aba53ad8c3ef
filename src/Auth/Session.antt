-- ===== src/Auth/Session.antt =====
-- edc_translation/auth.py: session tokens, JSON Web Tokens signed with HMAC-SHA-256.
pub mod Laws
use edctranslation_public.Prelude.{
  String, ◌<>◌, Bool, true, false, Option, none, some, List, [], ◌∷◌, ◌==◌, string_eq, not,
  if◌then◌else◌,
}
use edctranslation_public.Prelude.Dict
use edctranslation_public.Prelude.Errors.{Result, ok, err, ◌>>=◌, ◌>>◌, guard}
use edctranslation_public.Json.{
  ℤ, Value, null, whole, text, list, nil, Payload, texts, Runtime, str, iterate, int_of, get_or,
  index,
}
use edctranslation_public.Jobs.WorkItem.{strings}
use edctranslation_public.Auth.{AuthFailure, auth_error, raised, Principal}
use edctranslation_public.Auth.Sets.{frozenset}
use edctranslation_public.Auth.Text.{cut, every, is_ascii}
use edctranslation_public.Auth.Times.{◌+ℤ◌, before}
use edctranslation_public.Auth.Hashing.{Crypto, b64_bytes, b64_json, json_from_b64}
use edctranslation_public.Auth.Store.{lift}

abbrev pub hs256 : String
hs256 = "HS256"

abbrev pub header : Payload
header = ("alg", text hs256) ∷ ("typ", text "JWT") ∷ []

abbrev pub claims : Principal → ℤ → ℤ → Payload
claims principal ttl_seconds current =
    ("sub", text principal.subject)
    ∷ ("tenant_id", text principal.tenant_id)
    ∷ ("roles", list (texts principal.roles))
    ∷ ("scopes", list (texts principal.scopes))
    ∷ ("iat", whole current)
    ∷ ("exp", whole (current +ℤ ttl_seconds))
    ∷ []

-- `a, b, c = token.split(".", 2)`
unfoldable pub three_parts : String → Option (String × String × String)
three_parts s = elim (cut b'.' s) [
  | none ↦ none
  | some (a, s') ↦ elim (cut b'.' s') [ none ↦ none | some (b, c) ↦ some (a, b, c) ]
]

-- `value == "HS256"`, which holds of that text alone.
abbrev pub is_hs256 : Value → Bool
is_hs256 (text s) = s == hs256
is_hs256 _ = false

module _ (py : Runtime) (lib : Crypto) where
  unfoldable pub signature : String → String → String
  signature secret signing_input = b64_bytes lib (lib.hmac secret signing_input)

  unfoldable pub create_session_jwt : Principal → String → ℤ → ℤ → String
  create_session_jwt principal secret ttl_seconds current =
      let signing_input =
        b64_json lib header <> "." <> b64_json lib (claims principal ttl_seconds current) in
      signing_input <> "." <> signature secret signing_input

  unfoldable pub principal_of_claims : Payload → Result AuthFailure Principal
  principal_of_claims payload = lift (do
    sub ← index payload "sub"
    tenant_id ← index payload "tenant_id"
    roles ← iterate py (get_or payload "roles" (list nil))
    scopes ← iterate py (get_or payload "scopes" (list nil))
    ok (record {
      subject = str py sub;
      tenant_id = str py tenant_id;
      roles = frozenset (strings py roles);
      scopes = frozenset (strings py scopes);
      auth_type = "jwt";
      token_id = none;
    }))

  unfoldable pub read_segments :
      String → String → String → String → ℤ → Result AuthFailure Principal
  read_segments encoded_header encoded_payload encoded_signature secret current = do
    guard (every is_ascii (encoded_header <> "." <> encoded_payload))
        (raised (lib.encode_error (encoded_header <> "." <> encoded_payload)))
    same ← lift (
        lib.compare_digest (signature secret (encoded_header <> "." <> encoded_payload))
          encoded_signature)
    guard same (auth_error "JWT signature verification failed")
    head ← lift (json_from_b64 lib encoded_header)
    guard (is_hs256 (get_or head "alg" null)) (auth_error "JWT algorithm is not supported")
    payload ← lift (json_from_b64 lib encoded_payload)
    exp ← lift (index payload "exp")
    expiry ← lift (int_of py exp)
    guard (before current expiry) (auth_error "JWT is expired")
    principal_of_claims payload

  unfoldable pub principal_from_session_jwt : String → String → ℤ → Result AuthFailure Principal
  principal_from_session_jwt token secret current = elim (three_parts token) [
    | none ↦ err (auth_error "JWT must have three segments")
    | some (encoded_header, encoded_payload, encoded_signature) ↦
        read_segments encoded_header encoded_payload encoded_signature secret current
  ]
