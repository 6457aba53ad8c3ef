-- ===== src/Auth/Store/Authentication.antt =====
-- What `JsonTokenAuditStore.principal_from_token` answers and what it writes.
use mathlib.Core.Path.{subst}
use edctranslation_public.Prelude.{
  String, ◌≡◌, refl, ap, true, false, ◌&&◌, some, map, List, [], ◌∷◌, ◌++◌, ◌==◌, string_eq, not,
  if◌then◌else◌, Bool-cases, inl, inr, All,
}
use edctranslation_public.Prelude.Errors.{Result, ok, err, ◌>>=◌, Result-cases}
use edctranslation_public.Json.{ℤ, Runtime, text}
use edctranslation_public.Jobs.Files.{Codec}
use edctranslation_public.Auth.{AuthFailure, Principal, Texts}
use edctranslation_public.Auth.Sets.{IsFrozenset}
use edctranslation_public.Auth.Hashing.{Crypto, verify_api_token}
use edctranslation_public.Auth.Tokens.{
  ApiTokenRecord, AuditEvent, success, denied, audit_event, is_active, principal_of,
  principal_from_api_token,
}
use edctranslation_public.Auth.Store.{
  File, first_verified, principal_from_token, with_used, denied_event, used_event,
  expired_or_revoked,
}
use edctranslation_public.Auth.Store.Laws.{
  HaveSets, Holds, records_of-map, logged-Holds, rewritten-Holds,
}

-- The records and events that a call leaves, from the record at which its loop ended.
abbrev pub tokens_after :
    Result AuthFailure ApiTokenRecord → ℤ → List ApiTokenRecord → List ApiTokenRecord
tokens_after (err e) now rs = rs
tokens_after (ok r) now rs = if is_active now r then with_used r now rs else rs

abbrev pub events_after : Result AuthFailure ApiTokenRecord → ℤ → List AuditEvent → List AuditEvent
events_after (err e) now es = es
events_after (ok r) now es =
    es ++ (if is_active now r then used_event r now else denied_event r now) ∷ []

-- The answer that a record is worth.
abbrev pub admitted : ℤ → ApiTokenRecord → Result AuthFailure Principal
admitted now r = if not (is_active now r) then err expired_or_revoked else ok (principal_of r)

module _ (py : Runtime) (library : Texts) (json : Codec) (lib : Crypto) where
  -- A property of every record is one of the record that verified.
  pub first_verified-All :
      (P : ApiTokenRecord → Type 0) (token : String) (rs : List ApiTokenRecord) (r : ApiTokenRecord)
      → All P rs
      → first_verified py library json lib token rs ≡ ok r
      → P r
  unfolding first_verified
  first_verified-All P token [] r h p = absurd (cc p)
  first_verified-All P token (q ∷ rs) r (h, hs) p =
      elim (Result-cases (verify_api_token lib token q.token_hash)) [
        | inr (e, v) ↦ absurd (cc (rw (v, first_verified) at p))
        | inl (true, v) ↦ subst P (cc (rw (v, first_verified) at p)) h
        | inl (false, v) ↦ first_verified-All P token rs r hs (rw (v, first_verified) at p)
      ]

  pub principal_from_api_token-first_verified :
      (token : String) (now : ℤ) (rs : List ApiTokenRecord)
      → principal_from_api_token lib token rs now
        ≡ (first_verified py library json lib token rs >>= admitted now)
  unfolding principal_from_api_token first_verified
  principal_from_api_token-first_verified token now [] = refl
  principal_from_api_token-first_verified token now (r ∷ rs) =
      elim (Result-cases (verify_api_token lib token r.token_hash)) [
        | inr (e, v) ↦ rw (v, principal_from_api_token, first_verified) refl
        | inl (true, v) ↦ rw (v, principal_from_api_token, first_verified) refl
        | inl (false, v) ↦
            rw (v, principal_from_api_token, first_verified)
              (principal_from_api_token-first_verified token now rs)
      ]

  with_used-HaveSets :
      (r : ApiTokenRecord) (now : ℤ) (rs : List ApiTokenRecord)
      → IsFrozenset r.scopes
      → HaveSets rs
      → HaveSets (with_used r now rs)
  unfolding with_used
  with_used-HaveSets r now [] s h = tt
  with_used-HaveSets r now (q ∷ rs) s (h, hs) = elim (Bool-cases (q.token_id == r.token_id)) [
    | inl y ↦ rw y (s, with_used-HaveSets r now rs s hs)
    | inr n ↦ rw n (h, with_used-HaveSets r now rs s hs)
  ]

  -- With a store whose file reads as the dicts of these tokens with sorted keys,
  -- `principal_from_token` answers as `principal_from_api_token` does on the list of them.
  pub principal_from_token-principal_from_api_token :
      (token : String) (now : ℤ) (file : File py library json lib) (rs : List ApiTokenRecord)
      (es : List AuditEvent)
      → Holds py library json lib file rs es
      → (principal_from_token py library json lib token now file).0
        ≡ principal_from_api_token lib token rs now
  unfolding principal_from_token
  principal_from_token-principal_from_api_token token now file rs es h =
      elim (Result-cases (first_verified py library json lib token rs)) [
        | inr (e, v) ↦
            rw (h.loads, records_of-map py library json lib rs h.sets, v, principal_from_token)
              (rw (principal_from_api_token-first_verified token now rs, v) refl)
        | inl (r, v) ↦ elim (Bool-cases (is_active now r)) [
          | inr n ↦
              rw (h.loads, records_of-map py library json lib rs h.sets, v, n, principal_from_token)
                (rw (principal_from_api_token-first_verified token now rs, v, n) refl)
          | inl y ↦
              rw (h.loads, records_of-map py library json lib rs h.sets, v, y, principal_from_token)
                (rw (principal_from_api_token-first_verified token now rs, v, y) refl)
        ]
      ]

  -- What the file holds after a call, from the record at which the loop ended.
  pub principal_from_token-Holds :
      (token : String) (now : ℤ) (file : File py library json lib) (rs : List ApiTokenRecord)
      (es : List AuditEvent)
      → Holds py library json lib file rs es
      → (let found = first_verified py library json lib token rs in
          Holds py library json lib
            (principal_from_token py library json lib token now file).1
            (tokens_after found now rs)
            (events_after found now es))
  unfolding principal_from_token
  principal_from_token-Holds token now file rs es h =
      elim (Result-cases (first_verified py library json lib token rs)) [
        | inr (e, v) ↦
            rw (h.loads, records_of-map py library json lib rs h.sets, v, principal_from_token) h
        | inl (r, v) ↦ elim (Bool-cases (is_active now r)) [
          | inr n ↦
              rw (h.loads, records_of-map py library json lib rs h.sets, v, n, principal_from_token)
                (logged-Holds py library json lib rs es (denied_event r now) h.sets)
          | inl y ↦
              rw (h.loads, records_of-map py library json lib rs h.sets, v, y, principal_from_token)
                (rewritten-Holds py library json lib (with_used r now rs) es (used_event r now) (
                  with_used-HaveSets r now rs
                    (first_verified-All (λ q. IsFrozenset q.scopes) token rs r h.sets v) h.sets))
        ]
      ]

  first_verified-append :
      (token : String) (earlier later : List ApiTokenRecord) (r : ApiTokenRecord)
      → All (λ q. verify_api_token lib token q.token_hash ≡ ok false) earlier
      → verify_api_token lib token r.token_hash ≡ ok true
      → first_verified py library json lib token (earlier ++ r ∷ later) ≡ ok r
  unfolding first_verified
  first_verified-append token [] later r h v = rw (v, first_verified) refl
  first_verified-append token (q ∷ earlier) later r (n, h) v =
      rw (n, first_verified) (first_verified-append token earlier later r h v)

  unchanged : (rs : List ApiTokenRecord) → rs ≡ map (λ q. q) rs
  unchanged [] = refl
  unchanged (r ∷ rs) = ap (◌∷◌ r) (unchanged rs)

  -- Where the file holds these tokens and events, and `r` is the first token that the text verifies
  -- against: afterwards every token with the id of an active `r` is `r` with this time of use, the
  -- other tokens are as they were, and one event is added, that names the tenant, the creator, the
  -- id and the time, and says that the token was used, or, if it is not active, that it was denied
  -- as expired or revoked.
  pub principal_from_token-Records :
      (token : String) (now : ℤ) (file : File py library json lib)
      (earlier later : List ApiTokenRecord) (r : ApiTokenRecord) (es : List AuditEvent)
      → Holds py library json lib file (earlier ++ r ∷ later) es
      → All (λ q. verify_api_token lib token q.token_hash ≡ ok false) earlier
      → verify_api_token lib token r.token_hash ≡ ok true
      → Holds py library json lib
          (principal_from_token py library json lib token now file).1
          (map
            (λ q.
              if is_active now r && q.token_id == r.token_id
              then record r { last_used_at = some now }
              else q)
            (earlier ++ r ∷ later))
          (es
            ++ record {
              event_type = if is_active now r then "api_token.used" else "api_token.denied";
              outcome = if is_active now r then success else denied;
              tenant_id = r.tenant_id;
              subject = r.created_by;
              resource = r.token_id;
              timestamp = now;
              details = if is_active now r then [] else ("reason", text "expired_or_revoked") ∷ [];
            }
              ∷ [])
  unfolding with_used audit_event principal_of
  principal_from_token-Records token now file earlier later r es h f v =
      let rs = earlier ++ r ∷ later in
      let found = first_verified-append token earlier later r f v in
      let after = rw found at (principal_from_token-Holds token now file rs es h) in
      elim (Bool-cases (is_active now r)) [
        | inl y ↦ rw y (rw y at after)
        | inr n ↦ rw n (
            subst
              (λ qs.
                Holds py library json lib
                  (principal_from_token py library json lib token now file).1 qs
                  (es ++ denied_event r now ∷ []))
              (unchanged rs) (rw n at after))
      ]
