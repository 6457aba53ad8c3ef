-- ===== src/Tests/Access.antt =====
-- Runs of authentication: tokens, sessions and requests.
use mathlib.Core.Path.{subst}
use edctranslation_public.Prelude.{
  String, ◌<>◌, ◌≡◌, ◌≢◌, refl, true, false, ◌&&◌, ◌==◌, if◌then◌else◌, map, none, some, [], ◌∷◌,
  ◌++◌, string_eq, nat_eq,
}
use edctranslation_public.Prelude.Dict
use edctranslation_public.Prelude.Errors.{ok, err}
use edctranslation_public.Json.{pos, text, int_of, str, iterate, get}
use edctranslation_public.Json.Sorting.{sorted_keys, sort_keys, insert_field}
use edctranslation_public.Jobs.WorkItem.{strings}
use edctranslation_public.Auth.{auth_error}
use edctranslation_public.Auth.Sets.{frozenset, IsFrozenset, adjoin}
use edctranslation_public.Auth.Text.{cut}
use edctranslation_public.Auth.Times.{◌+ℤ◌}
use edctranslation_public.Auth.Hashing.{hash_api_token, verify_api_token, four_parts}
use edctranslation_public.Auth.Tokens.{
  ApiTokenRecord, success, denied, issue_api_token, principal_from_api_token, is_active,
  principal_of, from_dict, to_dict, optional_int, audit_event, event_to_dict,
}
use edctranslation_public.Auth.Tokens.Laws.{principal_from_api_token-issue_api_token}
use edctranslation_public.Auth.Store.{
  File, revoke_loop, write_revoked, load, save, without, records_of, with_used, save_token,
  revoke_token, principal_from_token, first_verified,
}
use edctranslation_public.Auth.Store.Laws.{Holds, none-Holds, save_token-Holds, others}
use edctranslation_public.Auth.Store.Authentication.{
  principal_from_token-principal_from_api_token, principal_from_token-Records,
}
use edctranslation_public.Auth.Store.Revoked.{authenticate}
use edctranslation_public.Auth.Store.Revocation.{run_calls, principal_from_token-revoke_token}
use edctranslation_public.Auth.Session.{
  header, claims, create_session_jwt, principal_from_session_jwt, signature, three_parts,
}
use edctranslation_public.Auth.Session.Laws.{
  in_session, principal_from_session_jwt-create_session_jwt, principal_from_session_jwt-signature,
}
use edctranslation_public.Tests.Fixtures.{py, codec}
use edctranslation_public.Tests.Crypto.{member, crypto, crypto-IsCrypto, texts}

-- A token for ever, of a tenant with one scope.
abbrev token_record : String → String → ApiTokenRecord
token_record id secret =
    (issue_api_token crypto id secret 0 "acme" ("models:read" ∷ []) "ada" none
      (pos 10)).token_record

principal_from_api_token-issue_api_token_example :
    (let issued =
        issue_api_token crypto "1" "x" 0 "acme"
          ("models:read" ∷ [])
          "ada"
          (some (pos 60))
          (pos 100) in
      principal_from_api_token crypto issued.plaintext_token
        (issued.token_record ∷ token_record "2" "yy" ∷ [])
        (pos 200))
    ≡ err (auth_error "API token is expired or revoked")
unfolding ◌+ℤ◌
principal_from_api_token-issue_api_token_example =
    principal_from_api_token-issue_api_token crypto crypto-IsCrypto "1" "x" 0 "acme"
      ("models:read" ∷ []) "ada" (some (pos 60)) (pos 100) (pos 200) (token_record "2" "yy" ∷ [])

abbrev one : ApiTokenRecord
one = token_record "1" "x"

abbrev two : ApiTokenRecord
two = token_record "2" "yy"

abbrev file : File py texts codec crypto
file = (save_token py texts codec crypto two (save_token py texts codec crypto one none).1).1

record-IsFrozenset : (id secret : String) → IsFrozenset (token_record id secret).scopes
unfolding issue_api_token frozenset adjoin
record-IsFrozenset id secret = (tt, tt)

file-Holds :
    Holds py texts codec crypto file
      (others two.token_id (others one.token_id [] ++ one ∷ []) ++ two ∷ [])
      []
file-Holds = save_token-Holds py texts codec crypto two _ _ [] (record-IsFrozenset "2" "yy") (
    save_token-Holds py texts codec crypto one none [] [] (record-IsFrozenset "1" "x")
      (none-Holds py texts codec crypto))

principal_from_token-principal_from_api_token_example :
    (principal_from_token py texts codec crypto "edc_x" (pos 20) file).0
    ≡ principal_from_api_token crypto "edc_x"
        (others two.token_id (others one.token_id [] ++ one ∷ []) ++ two ∷ [])
        (pos 20)
principal_from_token-principal_from_api_token_example =
    principal_from_token-principal_from_api_token py texts codec crypto "edc_x" (pos 20) file _ []
      file-Holds

records_two :
    (others two.token_id (others one.token_id [] ++ one ∷ []) ++ two ∷ []) ≡ one ∷ two ∷ []
unfolding issue_api_token string_eq
records_two = refl

verified_one : first_verified py texts codec crypto "edc_x" (one ∷ two ∷ []) ≡ ok one
unfolding issue_api_token first_verified verify_api_token four_parts cut hash_api_token string_eq
    nat_eq
verified_one = refl

listed-Holds : Holds py texts codec crypto file (one ∷ two ∷ []) []
listed-Holds = subst (λ rs. Holds py texts codec crypto file rs []) records_two file-Holds

one-other : verify_api_token crypto "edc_yy" one.token_hash ≡ ok false
unfolding issue_api_token verify_api_token four_parts cut hash_api_token string_eq nat_eq
one-other = refl

two-verified : verify_api_token crypto "edc_yy" two.token_hash ≡ ok true
unfolding issue_api_token verify_api_token four_parts cut hash_api_token string_eq nat_eq
two-verified = refl

two-active : is_active (pos 20) two ≡ true
unfolding is_active issue_api_token
two-active = refl

-- The use of the second of two tokens.
principal_from_token-Records_example :
    Holds py texts codec crypto
      (principal_from_token py texts codec crypto "edc_yy" (pos 20) file).1
      (map
        (λ q.
          if is_active (pos 20) two && q.token_id == two.token_id
          then record two { last_used_at = some (pos 20) }
          else q)
        (one ∷ two ∷ []))
      (record {
        event_type = if is_active (pos 20) two then "api_token.used" else "api_token.denied";
        outcome = if is_active (pos 20) two then success else denied;
        tenant_id = two.tenant_id;
        subject = two.created_by;
        resource = two.token_id;
        timestamp = pos 20;
        details = if is_active (pos 20) two then [] else ("reason", text "expired_or_revoked") ∷ [];
      }
        ∷ [])
principal_from_token-Records_example =
    principal_from_token-Records py texts codec crypto "edc_yy" (pos 20) file (one ∷ []) [] two []
      listed-Holds (one-other, tt) two-verified

-- The second token's bearer, once the first token is revoked and was tried in vain.
abbrev after_revocation : File py texts codec crypto
after_revocation =
    run_calls py texts codec crypto (authenticate "edc_x" (pos 30) ∷ [])
      (revoke_token py texts codec crypto "tok_1" member (pos 25) file).1

revoked_one :
    (revoke_token py texts codec crypto "tok_1" member (pos 25) file).0
    ≡ ok (record one { revoked_at = some (pos 25) })
unfolding revoke_token revoke_loop write_revoked save_token issue_api_token load save without
    records_of from_dict to_dict optional_int int_of str iterate get strings frozenset adjoin
    audit_event Dict.lookup string_eq nat_eq sorted_keys sort_keys insert_field hash_api_token
revoked_one = refl

admitted_two :
    (principal_from_token py texts codec crypto "edc_yy" (pos 40) after_revocation).0
    ≡ ok (principal_of two)
unfolding revoke_token revoke_loop write_revoked save_token issue_api_token load save without
    records_of from_dict to_dict optional_int int_of str iterate get strings frozenset adjoin
    audit_event Dict.lookup string_eq nat_eq sorted_keys sort_keys insert_field hash_api_token
    principal_from_token first_verified verify_api_token four_parts cut is_active with_used
    principal_of event_to_dict
admitted_two = refl

principal_from_token-revoke_token_example : (principal_of two).token_id ≢ some "tok_1"
principal_from_token-revoke_token_example =
    principal_from_token-revoke_token py texts codec crypto "tok_1" member (pos 25) file _ [] _
      (authenticate "edc_x" (pos 30) ∷ []) "edc_yy" (pos 40) (principal_of two) file-Holds
      revoked_one (tt, tt) admitted_two

member-sets : IsFrozenset member.roles × IsFrozenset member.scopes
member-sets = ((tt, tt), (refl, (tt, tt)))

header-read : crypto.loads (crypto.dumps (sorted_keys header)) ≡ ok (sorted_keys header)
unfolding Dict.lookup string_eq nat_eq sorted_keys sort_keys insert_field
header-read = refl

claims-read :
    crypto.loads (crypto.dumps (sorted_keys (claims member (pos 60) (pos 100))))
    ≡ ok (sorted_keys (claims member (pos 60) (pos 100)))
unfolding Dict.lookup string_eq nat_eq sorted_keys sort_keys insert_field
claims-read = refl

session_read :
    principal_from_session_jwt py crypto
      (create_session_jwt py crypto member "key" (pos 60) (pos 100))
      "key"
      (pos 120)
    ≡ ok (in_session member)
unfolding ◌+ℤ◌
session_read =
    principal_from_session_jwt-create_session_jwt py crypto crypto-IsCrypto member "key" (pos 60)
      (pos 100) (pos 120) member-sets.0 member-sets.1 header-read claims-read

principal_from_session_jwt-create_session_jwt_example :
    principal_from_session_jwt py crypto
      (create_session_jwt py crypto member "key" (pos 60) (pos 100))
      "key"
      (pos 120)
    ≡ ok (in_session member)
unfolding ◌+ℤ◌
principal_from_session_jwt-create_session_jwt_example =
    principal_from_session_jwt-create_session_jwt py crypto crypto-IsCrypto member "key" (pos 60)
      (pos 100) (pos 120) member-sets.0 member-sets.1 header-read claims-read

principal_from_session_jwt-signature_example :
    (head : String) × (body : String) × (three_parts
        (create_session_jwt py crypto member "key" (pos 60) (pos 100))
      ≡ some (head, body, signature py crypto "key" (head <> "." <> body)))
principal_from_session_jwt-signature_example =
    principal_from_session_jwt-signature py crypto crypto-IsCrypto
      (create_session_jwt py crypto member "key" (pos 60) (pos 100)) "key" (pos 120)
      (in_session member) session_read
