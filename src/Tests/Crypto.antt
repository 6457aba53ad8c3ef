-- ===== src/Tests/Crypto.antt =====
-- A stand-in for the cryptographic library that meets the documented laws: its bytes are numbers,
-- which Base64 writes as so many letters.
use text.Mathlib.TextLemmas.{nil-append, cons-append}
use edctranslation_public.Prelude.{
  ℕ, zero, suc, ◌+◌, String, ◌<>◌, ◌≡◌, refl, ap, sym, true, none, some, [], ◌∷◌, ◌==◌, string_eq,
  nat_eq, if◌then◌else◌,
}
use Prim.Native.Char.{code}
use edctranslation_public.Prelude.Dict
use edctranslation_public.Prelude.Errors.{Result, ok, type_error, Exception}
use edctranslation_public.Json.{pos, Payload}
use edctranslation_public.Json.Sorting.{sorted_keys}
use edctranslation_public.Auth.{Principal, Texts}
use edctranslation_public.Auth.Text.{every, in_base64, equals_signs, padding, size}
use edctranslation_public.Auth.Hashing.{Crypto, IsCrypto}
use edctranslation_public.Auth.Session.{header, claims}

abbrev letters : ℕ → String
letters zero = ""
letters (suc n) = String.◌∷◌ "A" (letters n)

abbrev count : String → ℕ
count String.[] = 0
count (String.◌∷◌ c s) = let rest = count s in if code c == b'A' then suc rest else 0

letters-alphabet : (n : ℕ) → every in_base64 (letters n) ≡ true
unfolding nat_eq
letters-alphabet zero = refl
letters-alphabet (suc n) = rw (letters-alphabet n) refl

count-equals_signs : (m : ℕ) → count (equals_signs m) ≡ 0
unfolding nat_eq
count-equals_signs zero = refl
count-equals_signs (suc m) = refl

count-letters : (n m : ℕ) → count (letters n <> equals_signs m) ≡ n
unfolding nat_eq
count-letters zero m = rw (nil-append (equals_signs m)) (count-equals_signs m)
count-letters (suc n) m =
    rw (cons-append "A" (letters n) (equals_signs m)) (ap suc (count-letters n m))

-- Whose session the sample JSON knows.
abbrev pub member : Principal
member = record {
  subject = "ada";
  tenant_id = "acme";
  roles = "viewer" ∷ [];
  scopes = "models:read" ∷ "translation:read" ∷ [];
  auth_type = "api_token";
  token_id = some "tok_1";
}

abbrev pub member_claims : Payload
member_claims = claims member (pos 60) (pos 100)

abbrev pub crypto : Crypto
crypto = record {
  Bytes = ℕ;
  pbkdf2 = λ token salt. size token + salt;
  hmac = λ key s. size key + size s;
  b64encode = λ n. letters n <> equals_signs (padding (size (letters n)));
  b64decode = λ s. ok (count s);
  compare_digest = λ s t. ok (s == t);
  dumps = λ p. elim (Dict.lookup "alg" p) [ none ↦ 2 | some v ↦ 1 ];
  loads = λ n. if n == 1 then ok (sorted_keys header) else ok (sorted_keys member_claims);
  encode_error = λ s. type_error;
}

ok-injective : {A : Type 0} (a b : A) → ◌≡◌ {A = Result Exception A} (ok a) (ok b) → a ≡ b
ok-injective a b h = cc h

pub crypto-IsCrypto : IsCrypto crypto
crypto-IsCrypto = record {
  body = letters;
  body-alphabet = letters-alphabet;
  b64encode_lem = λ n. refl;
  b64decode-b64encode = λ n. ap ok (count-letters n (padding (size (letters n))));
  compare_digest-ok = λ s t r h. sym (ok-injective (s == t) r h);
  compare_digest-ascii = λ s t hs ht. refl;
}

abbrev pub texts : Texts
texts = record { strip = λ s. s; lower = λ s. s; repr = λ s. "'" <> s <> "'" }
