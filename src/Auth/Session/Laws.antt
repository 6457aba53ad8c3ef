-- ===== src/Auth/Session/Laws.antt =====
-- What session tokens prove: a token that was made is read back until it expires, and one that is
-- accepted was signed.
use text.Mathlib.TextLemmas.{append_assoc, cons-append}
use edctranslation_public.Prelude.{
  String, ◌<>◌, ◌≡◌, refl, sym, true, false, none, some, string_eq, nat_eq, if◌then◌else◌,
  Option-cases, Bool-cases, inl, inr, ==_iff,
}
use edctranslation_public.Prelude.Dict
use edctranslation_public.Prelude.Errors.{ok, err, Result-cases}
use edctranslation_public.Json.{ℤ, Payload, Runtime, str, iterate, int_of}
use edctranslation_public.Json.Sorting.{sort_keys, insert_field, sorted_keys, sort_items-texts}
use edctranslation_public.Jobs.WorkItem.RoundTrip.{strings-texts}
use edctranslation_public.Auth.{auth_error, Principal}
use edctranslation_public.Auth.Sets.{IsFrozenset, frozenset_id}
use edctranslation_public.Auth.Text.{
  every, differs, cut-append, in_base64, is_ascii, every-implies, every-append,
}
use edctranslation_public.Auth.Times.{◌+ℤ◌, before}
use edctranslation_public.Auth.Hashing.{Crypto, IsCrypto, b64_bytes, b64_json}
use edctranslation_public.Auth.Hashing.Laws.{
  no_dot, base64-ascii, one-append, body-differs, b64_bytes_lem, json_from_b64-b64_json,
}
use edctranslation_public.Auth.Session.{
  header, claims, three_parts, signature, create_session_jwt, principal_of_claims, read_segments,
  principal_from_session_jwt,
}

segments :
    (a b c : String) → (a <> "." <> b) <> "." <> c ≡ a <> String.◌∷◌ "." (b <> String.◌∷◌ "." c)
segments a b c =
    rw
      (
        append_assoc a ("." <> b) ("." <> c),
        one-append "." b,
        one-append "." c,
        cons-append "." b (String.◌∷◌ "." c),
      )
      refl

three_parts_lem :
    (a b c : String)
    → every (differs b'.') a ≡ true
    → every (differs b'.') b ≡ true
    → three_parts ((a <> "." <> b) <> "." <> c) ≡ some (a, b, c)
unfolding three_parts
three_parts_lem a b c ha hb =
    rw (segments a b c, cut-append "." a _ ha, cut-append "." b c hb, three_parts) refl

-- The principal that the claims of another carry.
abbrev pub in_session : Principal → Principal
in_session p = record p { auth_type = "jwt"; token_id = none }

module _ (py : Runtime) (lib : Crypto) (laws : IsCrypto lib) where
  b64_bytes-differs : (b : lib.Bytes) → every (differs b'.') (b64_bytes lib b) ≡ true
  b64_bytes-differs b = rw (b64_bytes_lem lib laws b) (body-differs lib laws b'.' b no_dot)

  b64_json-differs : (p : Payload) → every (differs b'.') (b64_json lib p) ≡ true
  unfolding b64_json
  b64_json-differs p = b64_bytes-differs (lib.dumps (sorted_keys p))

  principal_of_claims-claims :
      (p : Principal) (ttl now : ℤ)
      → IsFrozenset p.roles
      → IsFrozenset p.scopes
      → principal_of_claims py lib (sorted_keys (claims p ttl now)) ≡ ok (in_session p)
  unfolding principal_of_claims iterate str Dict.lookup string_eq nat_eq sorted_keys sort_keys
      insert_field
  principal_of_claims-claims p ttl now hr hs =
      rw
        (
          sort_items-texts p.roles,
          sort_items-texts p.scopes,
          strings-texts py p.roles,
          strings-texts py p.scopes,
          frozenset_id p.roles hr,
          frozenset_id p.scopes hs,
        )
        refl

  signature-ascii : (secret s : String) → every is_ascii (signature py lib secret s) ≡ true
  unfolding signature
  signature-ascii secret s = rw (b64_bytes_lem lib laws (lib.hmac secret s)) (
      every-implies in_base64 is_ascii (laws.body (lib.hmac secret s)) base64-ascii
        (laws.body-alphabet (lib.hmac secret s)))

  b64_json-ascii : (p : Payload) → every is_ascii (b64_json lib p) ≡ true
  unfolding b64_json
  b64_json-ascii p = rw (b64_bytes_lem lib laws (lib.dumps (sorted_keys p))) (
      every-implies in_base64 is_ascii (laws.body (lib.dumps (sorted_keys p))) base64-ascii
        (laws.body-alphabet (lib.dumps (sorted_keys p))))

  signing_input-ascii :
      (p q : Payload) → every is_ascii (b64_json lib p <> "." <> b64_json lib q) ≡ true
  signing_input-ascii p q =
      rw
        (
          every-append is_ascii (b64_json lib p) ("." <> b64_json lib q),
          every-append is_ascii "." (b64_json lib q),
          b64_json-ascii p,
          b64_json-ascii q,
        )
        refl

  compare_digest-signature :
      (secret s : String)
      → lib.compare_digest (signature py lib secret s) (signature py lib secret s) ≡ ok true
  compare_digest-signature secret s =
      rw
        (
          laws.compare_digest-ascii _ _ (signature-ascii secret s) (signature-ascii secret s),
          (==_iff (signature py lib secret s) (signature py lib secret s)).1 refl,
        )
        refl

  read_segments-own :
      (p : Principal) (secret : String) (ttl made now : ℤ)
      → IsFrozenset p.roles
      → IsFrozenset p.scopes
      → lib.loads (lib.dumps (sorted_keys header)) ≡ ok (sorted_keys header)
      → lib.loads (lib.dumps (sorted_keys (claims p ttl made)))
        ≡ ok (sorted_keys (claims p ttl made))
      → read_segments py lib
          (b64_json lib header)
          (b64_json lib (claims p ttl made))
          (signature py lib secret (b64_json lib header <> "." <> b64_json lib (claims p ttl made)))
          secret
          now
        ≡ (if before now (made +ℤ ttl)
            then ok (in_session p)
            else err (auth_error "JWT is expired"))
  unfolding read_segments int_of Dict.lookup string_eq nat_eq sorted_keys sort_keys insert_field
  read_segments-own p secret ttl made now hr hs head body =
      rw
        (
          signing_input-ascii header (claims p ttl made),
          compare_digest-signature secret
              (b64_json lib header <> "." <> b64_json lib (claims p ttl made)),
          json_from_b64-b64_json lib laws header head,
          json_from_b64-b64_json lib laws (claims p ttl made) body,
          read_segments,
        )
        (elim (Bool-cases (before now (made +ℤ ttl))) [
          | inl y ↦ rw y (principal_of_claims-claims p ttl made hr hs)
          | inr n ↦ rw n refl
        ])

  -- A session token that `create_session_jwt` made gives its principal back, with the same secret,
  -- as long as its time to live is not over, and an error after that; its roles and scopes are
  -- sets, and JSON reads back the header and the claims as they are written, with sorted keys.
  pub principal_from_session_jwt-create_session_jwt :
      (p : Principal) (secret : String) (ttl made now : ℤ)
      → IsFrozenset p.roles
      → IsFrozenset p.scopes
      → lib.loads (lib.dumps (sorted_keys header)) ≡ ok (sorted_keys header)
      → lib.loads (lib.dumps (sorted_keys (claims p ttl made)))
        ≡ ok (sorted_keys (claims p ttl made))
      → principal_from_session_jwt py lib (create_session_jwt py lib p secret ttl made) secret now
        ≡ (if before now (made +ℤ ttl)
            then ok (in_session p)
            else err (auth_error "JWT is expired"))
  unfolding principal_from_session_jwt create_session_jwt
  principal_from_session_jwt-create_session_jwt p secret ttl made now hr hs head body =
      rw
        (
          three_parts_lem _ _ _ (b64_json-differs header) (b64_json-differs (claims p ttl made)),
          principal_from_session_jwt,
        )
        (read_segments-own p secret ttl made now hr hs head body)

  -- A token that is accepted has three segments, the third of which is the signature, under the
  -- secret, of the other two.
  pub principal_from_session_jwt-signature :
      (token secret : String) (now : ℤ) (p : Principal)
      → principal_from_session_jwt py lib token secret now ≡ ok p
      → (head : String) × (body : String) × (three_parts token
          ≡ some (head, body, signature py lib secret (head <> "." <> body)))
  unfolding principal_from_session_jwt read_segments
  principal_from_session_jwt-signature token secret now p h =
      elim (Option-cases (three_parts token)) [
        | inl n ↦ absurd (cc (rw (n, principal_from_session_jwt) at h))
        | inr ((head, body, sig), s) ↦ elim (Bool-cases (every is_ascii (head <> "." <> body))) [
          | inr n ↦ absurd (cc (rw (s, n, principal_from_session_jwt, read_segments) at h))
          | inl y ↦
              elim (Result-cases
                (lib.compare_digest (signature py lib secret (head <> "." <> body)) sig)) [
                  | inr (e, c) ↦
                      absurd (cc (rw (s, y, c, principal_from_session_jwt, read_segments) at h))
                  | inl (false, c) ↦
                      absurd (cc (rw (s, y, c, principal_from_session_jwt, read_segments) at h))
                  | inl (true, c) ↦ (
                    head,
                    body,
                    rw
                        (
                          s,
                          (==_iff (signature py lib secret (head <> "." <> body)) sig).0
                              (sym (laws.compare_digest-ok _ _ true c)),
                        )
                        refl,
                  )
                ]
        ]
      ]
