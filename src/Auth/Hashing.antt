-- ===== src/Auth/Hashing.antt =====
-- edc_translation/auth.py: `hash_api_token`, `verify_api_token` and the Base64 helpers. The hash
-- functions, Base64 and the constant-time comparison are library calls.
pub mod Laws
use edctranslation_public.Prelude.{
  String, ◌<>◌, ◌≡◌, refl, Bool, true, false, ◌&&◌, Option, none, some, ◌==◌, string_eq, arith,
  if◌then◌else◌, Option-cases, Bool-cases, inl, inr, sym, ==_iff,
}
use edctranslation_public.Prelude.Errors.{Result, ok, err, ◌>>=◌, Exception, Result-cases}
use edctranslation_public.Json.{Payload}
use edctranslation_public.Json.Sorting.{sorted_keys}
use edctranslation_public.Auth.Text.{
  every, cut, size, equals_signs, rstrip, padding, in_base64, is_ascii, differs, every-implies,
  every-append, cut-append, rstrip-append,
}

-- `pbkdf2 token salt` is `hashlib.pbkdf2_hmac("sha256", token, salt, 210_000)`; `hmac key text` is
-- the SHA-256 HMAC; `b64encode` and `b64decode` are the URL-safe ones, to and from texts; `dumps`
-- writes the UTF-8 bytes of a dict's JSON with the keys in the order of the dict, and `loads` reads
-- such bytes; `encode_error` is what
-- `encode("ascii")` raises.
pub record Crypto : Type 1 where
  pub Bytes : Type 0
  pub pbkdf2 : String → Bytes → Bytes
  pub hmac : String → String → Bytes
  pub b64encode : Bytes → String
  pub b64decode : String → Result Exception Bytes
  pub compare_digest : String → String → Result Exception Bool
  pub dumps : Payload → Bytes
  pub loads : Bytes → Result Exception Payload
  pub encode_error : String → Exception

-- What their documentation says: Base64 writes letters of its alphabet and then equals signs up to
-- a multiple of four, and reads that back; `compare_digest` is equality, on ASCII texts.
pub record IsCrypto (c : Crypto) : Type 0 where
  pub body : c.Bytes → String
  pub body-alphabet : (b : c.Bytes) → every in_base64 (body b) ≡ true
  pub b64encode_lem :
      (b : c.Bytes) → c.b64encode b ≡ body b <> equals_signs (padding (size (body b)))
  pub b64decode-b64encode : (b : c.Bytes) → c.b64decode (c.b64encode b) ≡ ok b
  pub compare_digest-ok : (s t : String) (r : Bool) → c.compare_digest s t ≡ ok r → r ≡ (s == t)
  pub compare_digest-ascii :
      (s t : String)
      → every is_ascii s ≡ true
      → every is_ascii t ≡ true
      → c.compare_digest s t ≡ ok (s == t)

abbrev pub algorithm_name : String
algorithm_name = "pbkdf2_sha256"

abbrev pub rounds_text : String
rounds_text = "210000"

-- `a, b, c, d = s.split("$", 3)`
unfoldable pub four_parts : String → Option (String × String × String × String)
four_parts s = elim (cut b'$' s) [
  | none ↦ none
  | some (a, s') ↦ elim (cut b'$' s') [
    | none ↦ none
    | some (b, s'') ↦ elim (cut b'$' s'') [ none ↦ none | some (c, d) ↦ some (a, b, c, d) ]
  ]
]

module _ (lib : Crypto) where
  unfoldable pub hash_api_token : String → lib.Bytes → String
  hash_api_token token salt =
      "pbkdf2_sha256$210000$" <> lib.b64encode salt <> "$" <> lib.b64encode (lib.pbkdf2 token salt)

  unfoldable pub verify_api_token : String → String → Result Exception Bool
  verify_api_token token stored_hash = elim (four_parts stored_hash) [
    | none ↦ ok false
    | some (algorithm, rounds, salt_b64, digest_b64) ↦
        if algorithm == algorithm_name && rounds == rounds_text
        then (do
          salt ← lib.b64decode salt_b64
          lib.compare_digest (hash_api_token token salt) stored_hash)
        else ok false
  ]

  unfoldable pub b64_bytes : lib.Bytes → String
  b64_bytes b = rstrip (lib.b64encode b)

  -- `sort_keys=True` writes the sorted dict.
  unfoldable pub b64_json : Payload → String
  b64_json payload = b64_bytes (lib.dumps (sorted_keys payload))

  unfoldable pub json_from_b64 : String → Result Exception Payload
  json_from_b64 s = do raw ← lib.b64decode (s <> equals_signs (padding (size s))); lib.loads raw
