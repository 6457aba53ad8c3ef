-- ===== src/Auth/Store/Revocation.antt =====
-- A revoked token stays revoked, through every later call of the token store.
use mathlib.Core.Path.{subst}
use edctranslation_public.Prelude.{
  String, ◌≡◌, ◌≢◌, ◌⊎◌, refl, ap, sym, ◌∙◌, some, List, [], ◌∷◌, map, string_eq, Bool-cases, inl,
  inr, All, All-append, Option-cases,
}
use edctranslation_public.Prelude.Errors.{ok, err, Result-cases}
use edctranslation_public.Json.{ℤ, Runtime}
use edctranslation_public.Jobs.Files.{Codec}
use edctranslation_public.Auth.{AuthFailure, Principal, Texts}
use edctranslation_public.Auth.Hashing.{Crypto}
use edctranslation_public.Auth.Tokens.{ApiTokenRecord, AuditEvent, is_active}
use edctranslation_public.Auth.Store.{
  File, save, revoke_loop, write_revoked, revoke_token, revocation_event, not_for_revocation,
  save_token, record_audit_event, principal_from_token, first_verified,
}
use edctranslation_public.Auth.Store.Laws.{
  others, Holds, rewritten, rewritten-Holds, records_of-map, save_token-Holds,
  record_audit_event-Holds,
}
use edctranslation_public.Auth.Store.Authentication.{
  tokens_after, first_verified-All, principal_from_token-principal_from_api_token,
  principal_from_token-Holds, principal_from_api_token-first_verified,
}
use edctranslation_public.Auth.Store.Revoked.{
  revoke_one, Revoked, revoke_loop-map, revoke_one-HaveSets, revoke_one-Revoked, All-map,
  revoke-All, with_used-Revoked, others-Revoked, admitted-Revoked, Call, Keeps, authenticate,
  revoke, store, log,
}

module _ (py : Runtime) (library : Texts) (json : Codec) (lib : Crypto) where
  abbrev pub run_call : Call → File py library json lib → File py library json lib
  run_call (authenticate token now) file =
      (principal_from_token py library json lib token now file).1
  run_call (revoke id by now) file = (revoke_token py library json lib id by now file).1
  run_call (store r) file = (save_token py library json lib r file).1
  run_call (log event) file = (record_audit_event py library json lib event file).1

  abbrev pub run_calls : List Call → File py library json lib → File py library json lib
  run_calls [] file = file
  run_calls (c ∷ cs) file = run_calls cs (run_call c file)

  -- The file holds tokens of which those with the id are revoked.
  abbrev pub HoldsRevoked : String → File py library json lib → Type 0
  HoldsRevoked id file =
      (rs : List ApiTokenRecord) × (es : List AuditEvent) × Holds py library json lib file rs es
      × All (Revoked id) rs

  -- Every call of `revoke_token` on a readable store: an unknown id changes nothing.
  revoke_token-Holds :
      (id : String) (by : Principal) (now : ℤ) (file : File py library json lib)
      (rs : List ApiTokenRecord) (es : List AuditEvent)
      → Holds py library json lib file rs es
      → (((e : AuthFailure) × (revoke_token py library json lib id by now file ≡ (err e, file)))
          ⊎ ((r : ApiTokenRecord) × (revoke_token py library json lib id by now file ≡ (
            ok r,
            save py library json lib
                (rewritten (map (revoke_one id now) rs) es (revocation_event id by now)),
          ))))
  unfolding revoke_token write_revoked
  revoke_token-Holds id by now file rs es h = elim (Option-cases (revoke_loop id now rs).1) [
    | inl p ↦ inl (
      not_for_revocation id,
      rw (h.loads, records_of-map py library json lib rs h.sets, revoke_token)
          (rw (p, write_revoked) refl),
    )
    | inr (r, p) ↦ inr (
      r,
      rw (h.loads, records_of-map py library json lib rs h.sets, revoke_token)
          (rw (p, write_revoked, revoke_loop-map id now rs) refl),
    )
  ]

  revoke_token-HoldsRevoked :
      (id other : String) (by : Principal) (now : ℤ) (file : File py library json lib)
      → HoldsRevoked id file
      → HoldsRevoked id (revoke_token py library json lib other by now file).1
  revoke_token-HoldsRevoked id other by now file (rs, es, h, rv) =
      elim (revoke_token-Holds other by now file rs es h) [
        | inl (e, p) ↦ subst (λ x. HoldsRevoked id x.1) (sym p) (rs, es, h, rv)
        | inr (r, p) ↦
            subst (λ x. HoldsRevoked id x.1) (sym p)
              (
                _,
                _,
                rewritten-Holds py library json lib _ _ _ (revoke_one-HaveSets other now rs h.sets),
                All-map (Revoked id) (revoke_one other now) rs (revoke_one-Revoked other id now) rv,
              )
      ]

  tokens_after-Revoked :
      (id token : String) (now : ℤ) (rs : List ApiTokenRecord)
      → All (Revoked id) rs
      → All (Revoked id) (tokens_after (first_verified py library json lib token rs) now rs)
  tokens_after-Revoked id token now rs rv =
      elim (Result-cases (first_verified py library json lib token rs)) [
        | inr (e, v) ↦ rw v rv
        | inl (r, v) ↦ elim (Bool-cases (is_active now r)) [
          | inr n ↦ rw (v, n) rv
          | inl y ↦
              rw (v, y)
                (with_used-Revoked id r now rs
                  (first_verified-All py library json lib (Revoked id) token rs r rv v) rv)
        ]
      ]

  authenticate-HoldsRevoked :
      (id token : String) (now : ℤ) (file : File py library json lib)
      → HoldsRevoked id file
      → HoldsRevoked id (principal_from_token py library json lib token now file).1
  authenticate-HoldsRevoked id token now file (rs, es, h, rv) = (
    _,
    _,
    principal_from_token-Holds py library json lib token now file rs es h,
    tokens_after-Revoked id token now rs rv,
  )

  -- One later call keeps the id revoked.
  run_call-HoldsRevoked :
      (id : String) (c : Call) (file : File py library json lib)
      → Keeps id c
      → HoldsRevoked id file
      → HoldsRevoked id (run_call c file)
  run_call-HoldsRevoked id (authenticate token now) file k h =
      authenticate-HoldsRevoked id token now file h
  run_call-HoldsRevoked id (revoke other by now) file k h =
      revoke_token-HoldsRevoked id other by now file h
  run_call-HoldsRevoked id (store r) file (n, s) (rs, es, h, rv) = (
    _,
    es,
    save_token-Holds py library json lib r file rs es s h,
    All-append (Revoked id) (others r.token_id rs) (r ∷ []) (others-Revoked id r.token_id rs rv)
        ((λ p. absurd (n p)), tt),
  )
  run_call-HoldsRevoked id (log event) file k (rs, es, h, rv) =
      (rs, _, record_audit_event-Holds py library json lib event file rs es h, rv)

  run_calls-HoldsRevoked :
      (id : String) (cs : List Call) (file : File py library json lib)
      → All (Keeps id) cs
      → HoldsRevoked id file
      → HoldsRevoked id (run_calls cs file)
  run_calls-HoldsRevoked id [] file k h = h
  run_calls-HoldsRevoked id (c ∷ cs) file (k, ks) h =
      run_calls-HoldsRevoked id cs (run_call c file) ks (run_call-HoldsRevoked id c file k h)

  -- Who is admitted holds no revoked id.
  HoldsRevoked-refuses :
      (id token : String) (now : ℤ) (file : File py library json lib) (p : Principal)
      → HoldsRevoked id file
      → (principal_from_token py library json lib token now file).0 ≡ ok p
      → p.token_id ≢ some id
  HoldsRevoked-refuses id token now file p (rs, es, h, rv) q =
      let answer =
        sym
          (principal_from_token-principal_from_api_token py library json lib token now file rs es h)
        ∙ q in
      elim (Result-cases (first_verified py library json lib token rs)) [
        | inr (e, v) ↦ absurd (
            cc (
              rw v at (
                sym (principal_from_api_token-first_verified py library json lib token now rs)
                ∙ answer)))
        | inl (r, v) ↦
            admitted-Revoked id now r p
              (first_verified-All py library json lib (Revoked id) token rs r rv v)
              (rw v at (
                sym (principal_from_api_token-first_verified py library json lib token now rs)
                ∙ answer))
      ]

  -- Once `revoke_token` has succeeded for an id, in a store whose file reads as the dicts of its
  -- tokens and events with sorted keys, as `_save` writes them, no later
  -- `principal_from_token` gives a principal with that token id, after any sequence of calls that
  -- authenticate, revoke, log, or save other ids with sets of scopes.
  pub principal_from_token-revoke_token :
      (id : String) (by : Principal) (now : ℤ) (file : File py library json lib)
      (rs : List ApiTokenRecord) (es : List AuditEvent) (r : ApiTokenRecord) (cs : List Call)
      (token : String) (later : ℤ) (p : Principal)
      → Holds py library json lib file rs es
      → (revoke_token py library json lib id by now file).0 ≡ ok r
      → All (Keeps id) cs
      → (principal_from_token py library json lib token later
          (run_calls cs (revoke_token py library json lib id by now file).1)).0
        ≡ ok p
      → p.token_id ≢ some id
  principal_from_token-revoke_token id by now file rs es r cs token later p h done k q =
      HoldsRevoked-refuses id token later _ p
        (run_calls-HoldsRevoked id cs _ k (elim (revoke_token-Holds id by now file rs es h) [
          | inl (e, refused) ↦ absurd (cc (ap (λ x. x.0) refused, done))
          | inr (r', p') ↦
              subst (λ x. HoldsRevoked id x.1) (sym p')
                (
                  _,
                  _,
                  rewritten-Holds py library json lib _ _ _ (revoke_one-HaveSets id now rs h.sets),
                  revoke-All id now rs,
                )
        ]))
        q
