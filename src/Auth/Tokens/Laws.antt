-- ===== src/Auth/Tokens/Laws.antt =====
-- Tokens and events read back from their dicts, and who a token makes of its bearer.
use edctranslation_public.Prelude.{
  String, ◌≡◌, refl, true, false, Option, none, some, List, [], ◌∷◌, string_eq, nat_eq, ◌<>◌,
  if◌then◌else◌, Option-cases, Bool-cases, inl, inr,
}
use edctranslation_public.Prelude.Dict
use edctranslation_public.Prelude.Errors.{ok, err}
use edctranslation_public.Json.{ℤ, dict, fields, Runtime, str, dict_of, iterate, int_of, get}
use edctranslation_public.Json.Sorting.{sort_keys, insert_field, sorted_keys, sort_items-texts}
use edctranslation_public.Jobs.WorkItem.RoundTrip.{strings-texts}
use edctranslation_public.Auth.{Texts, auth_error}
use edctranslation_public.Auth.Sets.{frozenset, IsFrozenset, frozenset_id}
use edctranslation_public.Auth.Times.{◌+ℤ◌, before, before-later}
use edctranslation_public.Auth.Tokens.{
  ApiTokenRecord, AuditEvent, AuditOutcome, is_active, to_dict, from_dict, event_to_dict,
  event_from_dict, outcome_of, outcome_text, optional_int, optional_value, principal_of,
  issue_api_token, principal_from_api_token,
}
use edctranslation_public.Auth.Hashing.{Crypto, IsCrypto}
use edctranslation_public.Auth.Hashing.Laws.{verify_api_token-hash_api_token}

module _ (py : Runtime) where
  optional_int-optional_value : (o : Option ℤ) → optional_int py (optional_value o) ≡ ok o
  unfolding optional_int int_of
  optional_int-optional_value none = refl
  optional_int-optional_value (some n) = refl

  sort_keys-optional_value : (o : Option ℤ) → sort_keys (optional_value o) ≡ optional_value o
  unfolding sort_keys
  sort_keys-optional_value none = refl
  sort_keys-optional_value (some n) = refl

  -- A token record whose scopes are a set reads back from its dict with sorted keys as itself.
  pub from_dict-to_dict :
      (r : ApiTokenRecord)
      → IsFrozenset r.scopes
      → from_dict py (sort_keys (dict (fields (to_dict r)))) ≡ ok r
  unfolding from_dict to_dict get iterate int_of str Dict.lookup string_eq nat_eq sort_keys
      insert_field
  from_dict-to_dict r h =
      rw
        (
          sort_items-texts r.scopes,
          strings-texts py r.scopes,
          frozenset_id r.scopes h,
          sort_keys-optional_value r.expires_at,
          sort_keys-optional_value r.revoked_at,
          sort_keys-optional_value r.last_used_at,
          optional_int-optional_value r.expires_at,
          optional_int-optional_value r.revoked_at,
          optional_int-optional_value r.last_used_at,
        )
        refl

  outcome_of-outcome_text :
      (library : Texts) (o : AuditOutcome) → outcome_of py library (outcome_text o) ≡ ok o
  unfolding outcome_of string_eq
  outcome_of-outcome_text library AuditOutcome.success = refl
  outcome_of-outcome_text library AuditOutcome.denied = refl
  outcome_of-outcome_text library AuditOutcome.error = refl

  -- An event as it reads back: the keys of its details are sorted.
  abbrev pub read_event : AuditEvent → AuditEvent
  read_event event = record event { details = sorted_keys event.details }

  pub event_from_dict-event_to_dict :
      (library : Texts) (event : AuditEvent)
      → event_from_dict py library (sort_keys (dict (fields (event_to_dict event))))
        ≡ ok (read_event event)
  unfolding event_from_dict event_to_dict get dict_of int_of str Dict.lookup string_eq nat_eq
      sort_keys insert_field sorted_keys
  event_from_dict-event_to_dict library event =
      rw (outcome_of-outcome_text library event.outcome) refl

-- A token that is not active is not active later: it cannot come back by waiting.
pub is_active-later :
    (r : ApiTokenRecord) (now later : ℤ)
    → before later now ≡ false
    → is_active now r ≡ false
    → is_active later r ≡ false
unfolding is_active
is_active-later r now later l h = elim (Option-cases r.revoked_at) [
  | inr (at, p) ↦ rw (p, is_active) refl
  | inl p ↦ elim (Option-cases r.expires_at) [
    | inl q ↦ absurd (cc (rw (p, q, is_active) at h))
    | inr (at, q) ↦ rw (p, q, is_active) (before-later at now later (rw (p, q, is_active) at h) l)
  ]
]

module _ (lib : Crypto) where
  -- A token that was just issued is worth its record's principal until its time to live is over,
  -- whatever records stand behind it in the list; a token without one is worth it for ever.
  pub principal_from_api_token-issue_api_token :
      (laws : IsCrypto lib) (id_part secret_part : String) (salt : lib.Bytes) (tenant_id : String)
      (scopes : List String) (created_by : String) (ttl : Option ℤ) (current now : ℤ)
      (others : List ApiTokenRecord)
      → (let issued =
            issue_api_token lib id_part secret_part salt tenant_id scopes created_by ttl current in
          principal_from_api_token lib issued.plaintext_token (issued.token_record ∷ others) now)
        ≡ (if elim ttl [ none ↦ true | some t ↦ before now (current +ℤ t) ]
            then ok (record {
              subject = created_by;
              tenant_id = tenant_id;
              roles = [];
              scopes = frozenset scopes;
              auth_type = "api_token";
              token_id = some ("tok_" <> id_part);
            })
            else err (auth_error "API token is expired or revoked"))
  unfolding principal_from_api_token issue_api_token is_active principal_of
  principal_from_api_token-issue_api_token laws id_part secret_part salt tenant_id scopes created_by
        none current now others =
      rw
        (
          verify_api_token-hash_api_token lib laws ("edc_" <> secret_part) salt,
          principal_from_api_token,
        )
        refl
  principal_from_api_token-issue_api_token laws id_part secret_part salt tenant_id scopes created_by
        (some t) current now others =
      elim (Bool-cases (before now (current +ℤ t))) [
        | inl y ↦
            rw
              (
                verify_api_token-hash_api_token lib laws ("edc_" <> secret_part) salt,
                y,
                principal_from_api_token,
              )
              refl
        | inr n ↦
            rw
              (
                verify_api_token-hash_api_token lib laws ("edc_" <> secret_part) salt,
                n,
                principal_from_api_token,
              )
              refl
      ]
