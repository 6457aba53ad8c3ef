-- ===== src/Auth/Hashing/Laws.antt =====
-- What `verify_api_token` accepts, and the Base64 helpers undone.
use text.Mathlib.TextLemmas.{append_assoc, nil-append, cons-append}
use Prim.Native.Char.{Char}
use edctranslation_public.Prelude.{
  ℕ, zero, suc, nat_eq, String, ◌<>◌, ◌≡◌, refl, true, false, ◌&&◌, some, ◌==◌, string_eq, arith,
  Option-cases, Bool-cases, inl, inr, sym, ==_iff,
}
use edctranslation_public.Prelude.Errors.{ok, Result-cases}
use edctranslation_public.Json.{Payload}
use edctranslation_public.Json.Sorting.{sorted_keys}
use edctranslation_public.Auth.Text.{
  every, size, equals_signs, padding, in_base64, is_ascii, differs, every-implies, every-append,
  cut-append, rstrip-append,
}
use edctranslation_public.Auth.Hashing.{
  Crypto, IsCrypto, algorithm_name, rounds_text, four_parts, hash_api_token, verify_api_token,
  b64_bytes, b64_json, json_from_b64,
}

no_equals_sign : in_base64 b'=' ≡ false
unfolding nat_eq
no_equals_sign = refl

pub no_dollar : in_base64 b'$' ≡ false
unfolding nat_eq
no_dollar = refl

pub no_dot : in_base64 b'.' ≡ false
unfolding nat_eq
no_dot = refl

pub one-append : (c : Char) (s : String) → String.◌∷◌ c "" <> s ≡ String.◌∷◌ c s
one-append c s = rw (cons-append c "" s, nil-append s) refl

pub base64-ascii : (n : ℕ) → in_base64 n ≡ true → is_ascii n ≡ true
base64-ascii n h = ground arith

pub base64-differs : (sep n : ℕ) → in_base64 sep ≡ false → in_base64 n ≡ true → differs sep n ≡ true
base64-differs sep n f h = ground arith

equals_signs-ascii : (n : ℕ) → every is_ascii (equals_signs n) ≡ true
equals_signs-ascii zero = refl
equals_signs-ascii (suc n) = equals_signs-ascii n

equals_signs-differs :
    (sep n : ℕ) → (b'=' == sep) ≡ false → every (differs sep) (equals_signs n) ≡ true
equals_signs-differs sep zero h = refl
equals_signs-differs sep (suc n) h = ground (arith, equals_signs-differs sep n)

four_parts_lem :
    (a b c d : String)
    → every (differs b'$') a ≡ true
    → every (differs b'$') b ≡ true
    → every (differs b'$') c ≡ true
    → four_parts (a <> String.◌∷◌ "$" (b <> String.◌∷◌ "$" (c <> String.◌∷◌ "$" d)))
      ≡ some (a, b, c, d)
unfolding four_parts
four_parts_lem a b c d ha hb hc =
    rw (cut-append "$" a _ ha, cut-append "$" b _ hb, cut-append "$" c d hc, four_parts) refl

before_salt-append :
    (s : String)
    → "pbkdf2_sha256$210000$" <> s
      ≡ algorithm_name <> String.◌∷◌ "$" (rounds_text <> String.◌∷◌ "$" s)
before_salt-append s =
    rw
      (
        sym (one-append "$" s),
        sym (append_assoc rounds_text "$" s),
        sym (one-append "$" ((rounds_text <> "$") <> s)),
        sym (append_assoc "$" (rounds_text <> "$") s),
        sym (append_assoc algorithm_name ("$" <> (rounds_text <> "$")) s),
      )
      refl

module _ (lib : Crypto) (laws : IsCrypto lib) where
  b64encode-ascii : (b : lib.Bytes) → every is_ascii (lib.b64encode b) ≡ true
  b64encode-ascii b =
      rw
        (
          laws.b64encode_lem b,
          every-append is_ascii (laws.body b) (equals_signs (padding (size (laws.body b)))),
          equals_signs-ascii (padding (size (laws.body b))),
          every-implies in_base64 is_ascii (laws.body b) base64-ascii (laws.body-alphabet b),
        )
        refl

  pub body-differs :
      (sep : ℕ) (b : lib.Bytes) → in_base64 sep ≡ false → every (differs sep) (laws.body b) ≡ true
  body-differs sep b h =
      every-implies in_base64 (differs sep) (laws.body b) (λ n. base64-differs sep n h)
        (laws.body-alphabet b)

  b64encode-differs :
      (sep : ℕ) (b : lib.Bytes)
      → in_base64 sep ≡ false
      → (b'=' == sep) ≡ false
      → every (differs sep) (lib.b64encode b) ≡ true
  b64encode-differs sep b h e =
      rw
        (
          laws.b64encode_lem b,
          every-append (differs sep) (laws.body b) (equals_signs (padding (size (laws.body b)))),
          equals_signs-differs sep (padding (size (laws.body b))) e,
          body-differs sep b h,
        )
        refl

  pub b64_bytes_lem : (b : lib.Bytes) → b64_bytes lib b ≡ laws.body b
  unfolding b64_bytes
  b64_bytes_lem b =
      rw (laws.b64encode_lem b) (rstrip-append (laws.body b) _ (body-differs b'=' b no_equals_sign))

  pub json_from_b64-b64_json :
      (p : Payload)
      → lib.loads (lib.dumps (sorted_keys p)) ≡ ok (sorted_keys p)
      → json_from_b64 lib (b64_json lib p) ≡ ok (sorted_keys p)
  unfolding json_from_b64 b64_json
  json_from_b64-b64_json p h =
      rw
        (
          b64_bytes_lem (lib.dumps (sorted_keys p)),
          sym (laws.b64encode_lem (lib.dumps (sorted_keys p))),
          laws.b64decode-b64encode (lib.dumps (sorted_keys p)),
        )
        h

  -- A token that verifies was hashed, with some salt, to the stored text.
  pub verify_api_token-hash_api_token_only :
      (token stored_hash : String)
      → verify_api_token lib token stored_hash ≡ ok true
      → (salt : lib.Bytes) × (stored_hash ≡ hash_api_token lib token salt)
  unfolding verify_api_token
  verify_api_token-hash_api_token_only token stored_hash h =
      elim (Option-cases (four_parts stored_hash)) [
        | inl p ↦ absurd (cc (rw (p, verify_api_token) at h))
        | inr ((algorithm, rounds, salt_b64, digest_b64), p) ↦
            elim (Bool-cases (algorithm == algorithm_name && rounds == rounds_text)) [
              | inr n ↦ absurd (cc (rw (p, n, verify_api_token) at h))
              | inl y ↦ elim (Result-cases (lib.b64decode salt_b64)) [
                | inr (e, d) ↦ absurd (cc (rw (p, y, d, verify_api_token) at h))
                | inl (salt, d) ↦ (
                  salt,
                  sym (
                      (==_iff _ _).0 (
                        sym
                          (laws.compare_digest-ok _ _ true (rw (p, y, d, verify_api_token) at h)))),
                )
              ]
            ]
      ]

  hash_api_token_lem :
      (token : String) (salt : lib.Bytes)
      → hash_api_token lib token salt
        ≡ algorithm_name
          <> String.◌∷◌ "$" (
              rounds_text
              <> String.◌∷◌ "$"
                  (lib.b64encode salt <> String.◌∷◌ "$" (lib.b64encode (lib.pbkdf2 token salt))))
  unfolding hash_api_token
  hash_api_token_lem token salt =
      rw (one-append "$" (lib.b64encode (lib.pbkdf2 token salt))) (before_salt-append _)

  four_parts-hash_api_token :
      (token : String) (salt : lib.Bytes)
      → four_parts (hash_api_token lib token salt)
        ≡ some
            (algorithm_name, rounds_text, lib.b64encode salt, lib.b64encode (lib.pbkdf2 token salt))
  unfolding nat_eq
  four_parts-hash_api_token token salt = rw (hash_api_token_lem token salt) (
      four_parts_lem algorithm_name rounds_text _ _ refl refl
        (b64encode-differs b'$' salt no_dollar refl))

  hash_api_token-ascii :
      (token : String) (salt : lib.Bytes) → every is_ascii (hash_api_token lib token salt) ≡ true
  unfolding hash_api_token
  hash_api_token-ascii token salt =
      rw
        (
          every-append is_ascii,
          every-append is_ascii,
          every-append is_ascii,
          b64encode-ascii salt,
          b64encode-ascii (lib.pbkdf2 token salt),
        )
        refl

  -- A token verifies against its own hash, with every salt.
  pub verify_api_token-hash_api_token :
      (token : String) (salt : lib.Bytes)
      → verify_api_token lib token (hash_api_token lib token salt) ≡ ok true
  unfolding string_eq verify_api_token
  verify_api_token-hash_api_token token salt =
      rw
        (
          four_parts-hash_api_token token salt,
          laws.b64decode-b64encode salt,
          laws.compare_digest-ascii _ _ (hash_api_token-ascii token salt)
              (hash_api_token-ascii token salt),
          (==_iff (hash_api_token lib token salt) (hash_api_token lib token salt)).1 refl,
          verify_api_token,
        )
        refl
