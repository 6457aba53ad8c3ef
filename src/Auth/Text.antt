-- ===== src/Auth/Text.antt =====
-- What edc_translation/auth.py does with texts character by character: splitting at a separator
-- and the padding of Base64.
use text.Mathlib.TextLemmas.{nil-append, cons-append}
use edctranslation_public.Prelude.{
  ℕ, zero, suc, ◌-◌, ◌%◌, String, ◌<>◌, ◌≡◌, refl, Bool, true, false, ◌&&◌, ◌||◌, not, Option, none,
  some, ◌==◌, nat_eq, leb, ltb, if◌then◌else◌, arith,
}
use Prim.Native.Char.{Char, code}

abbrev pub every : (ℕ → Bool) → String → Bool
every p String.[] = true
every p (String.◌∷◌ c s) = p (code c) && every p s

-- `left, right = s.split(sep, 1)`, where there is a `sep`.
unfoldable pub cut : ℕ → String → Option (String × String)
cut sep String.[] = none
cut sep (String.◌∷◌ c s) =
    let rest = cut sep s in
    if code c == sep
    then some ("", s)
    else elim rest [ none ↦ none | some (a, b) ↦ some (String.◌∷◌ c a, b) ]

abbrev pub size : String → ℕ
size String.[] = 0
size (String.◌∷◌ c s) = suc (size s)

abbrev pub equals_signs : ℕ → String
equals_signs zero = ""
equals_signs (suc n) = String.◌∷◌ "=" (equals_signs n)

abbrev is_empty : String → Bool
is_empty String.[] = true
is_empty (String.◌∷◌ c s) = false

-- `s.rstrip("=")`
unfoldable pub rstrip : String → String
rstrip String.[] = ""
rstrip (String.◌∷◌ c s) =
    let rest = rstrip s in if is_empty rest && code c == b'=' then "" else String.◌∷◌ c rest

-- `-n % 4`
abbrev pub padding : ℕ → ℕ
padding n = (4 - n % 4) % 4

-- The alphabet of URL-safe Base64.
abbrev pub in_base64 : ℕ → Bool
in_base64 c =
    (leb b'a' c && leb c b'z')
    || (leb b'A' c && leb c b'Z')
    || (leb b'0' c && leb c b'9')
    || c == b'-'
    || c == b'_'

abbrev pub is_ascii : ℕ → Bool
is_ascii c = ltb c 128

abbrev pub differs : ℕ → ℕ → Bool
differs sep c = not (c == sep)

pub every-implies :
    (p q : ℕ → Bool) (s : String)
    → ((c : ℕ) → p c ≡ true → q c ≡ true)
    → every p s ≡ true
    → every q s ≡ true
every-implies p q String.[] f h = refl
every-implies p q (String.◌∷◌ c s) f h = ground (arith, f (code c), every-implies p q s f)

pub every-append : (p : ℕ → Bool) (s t : String) → every p (s <> t) ≡ (every p s && every p t)
every-append p String.[] t = rw (nil-append t) refl
every-append p (String.◌∷◌ c s) t = rw (cons-append c s t) (ground (arith, every-append p s t))

-- The first separator is where the part that has none ends.
pub cut-append :
    (c : Char) (s t : String)
    → every (differs (code c)) s ≡ true
    → cut (code c) (s <> String.◌∷◌ c t) ≡ some (s, t)
unfolding cut
cut-append c String.[] t h = rw (nil-append (String.◌∷◌ c t)) (ground arith)
cut-append c (String.◌∷◌ d s) t h =
    rw (cons-append d s (String.◌∷◌ c t)) (ground (arith, cut-append c s t))

rstrip-equals_signs : (n : ℕ) → rstrip (equals_signs n) ≡ ""
unfolding rstrip nat_eq
rstrip-equals_signs zero = refl
rstrip-equals_signs (suc n) = rw (rstrip-equals_signs n, rstrip) refl

pub rstrip-append :
    (s : String) (n : ℕ) → every (differs b'=') s ≡ true → rstrip (s <> equals_signs n) ≡ s
unfolding rstrip
rstrip-append String.[] n h = rw (nil-append (equals_signs n)) (rstrip-equals_signs n)
rstrip-append (String.◌∷◌ c s) n h =
    rw (cons-append c s (equals_signs n)) (ground (arith, rstrip-append s n))
