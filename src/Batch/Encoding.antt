-- ===== src/Batch/Encoding.antt =====
-- edc_translation/text_batch.py: the names of encodings, the encoding that the bytes of a file
-- betray, and file extensions. Strict decoding and the statistics of charset_normalizer are library
-- calls.
use edctranslation_public.Prelude.{
  ℕ, suc, ◌*◌, ◌/◌, String, ◌<>◌, Bool, true, false, ◌&&◌, ◌||◌, Option, none, some, List, [], ◌∷◌,
  length, ltb, ◌==◌, string_eq, nat_eq, if◌then◌else◌, starts_with,
}
use Prim.Native.Char.{code}
use edctranslation_public.Prelude.Dict
use edctranslation_public.Prelude.Dict.{Dict}
use edctranslation_public.Auth.{Texts}

-- A float is given by its 64 bits.
pub record TextEncodingDetection : Type 0 where
  pub encoding : String
  pub confidence : ℕ
  pub source : String

abbrev pub certain : ℕ
certain = 0x3ff0000000000000

abbrev pub aliases : Dict String String
aliases =
    ("auto", "auto")
    ∷ ("utf8", "utf-8")
    ∷ ("utf-8-bom", "utf-8-sig")
    ∷ ("utf16", "utf-16")
    ∷ ("utf16-le", "utf-16-le")
    ∷ ("utf16-be", "utf-16-be")
    ∷ ("windows-1252", "cp1252")
    ∷ ("ansi", "cp1252")
    ∷ ("match", "match-source")
    ∷ []

abbrev pub supported_output_encodings : List String
supported_output_encodings =
    "utf-8" ∷ "utf-8-sig" ∷ "utf-16" ∷ "utf-16-le" ∷ "utf-16-be" ∷ "cp1252" ∷ "ansi"
    ∷ "match-source" ∷ []

abbrev pub default_text_extensions : List String
default_text_extensions = ".txt" ∷ []

-- `s.replace("_", "-")`
abbrev pub dashed : String → String
dashed String.[] = ""
dashed (String.◌∷◌ c s) =
    if code c == b'_' then String.◌∷◌ "-" (dashed s) else String.◌∷◌ c (dashed s)

abbrev pub Bytes : Type 0
Bytes = List ℕ

abbrev pub starts : Bytes → Bytes → Bool
starts [] raw = true
starts (b ∷ bs) [] = false
starts (b ∷ bs) (c ∷ raw) = b == c && starts bs raw

-- `raw[0::2].count(0)` and `raw[1::2].count(0)`
abbrev mutual
  pub even_nulls : Bytes → ℕ
  even_nulls [] = 0
  even_nulls (b ∷ raw) = if b == 0 then suc (odd_nulls raw) else odd_nulls raw

  pub odd_nulls : Bytes → ℕ
  odd_nulls [] = 0
  odd_nulls (b ∷ raw) = even_nulls raw

-- `max(1, len(raw) // 2)`
abbrev pub half_length : Bytes → ℕ
half_length raw = let half = length raw / 2 in if half == 0 then 1 else half

-- `a / half > 0.3` and `a / half < 0.05`, which doubles decide like the fractions for every file
-- below 2^50 bytes.
abbrev pub many : ℕ → ℕ → Bool
many a half = ltb (3 * half) (10 * a)

abbrev pub few : ℕ → ℕ → Bool
few a half = ltb (20 * a) half

abbrev pub null_pattern : String → TextEncodingDetection
null_pattern encoding = record {
  encoding = encoding;
  confidence = 0x3fe999999999999a;
  source = "null-byte-pattern";
}

unfoldable pub detect_utf16_without_bom : Bytes → Option TextEncodingDetection
detect_utf16_without_bom raw =
    if ltb (length raw) 4
    then none
    else if many (odd_nulls raw) (half_length raw) && few (even_nulls raw) (half_length raw)
    then some (null_pattern "utf-16-le")
    else if many (even_nulls raw) (half_length raw) && few (odd_nulls raw) (half_length raw)
    then some (null_pattern "utf-16-be")
    else none

-- What decoding needs of the libraries: whether bytes decode strictly, and the best guess of
-- charset_normalizer, if it is installed and has one, with its confidence as the code computes it.
pub record Codecs : Type 0 where
  pub decodes : String → Bytes → Bool
  pub best_guess : Bytes → Option (String × ℕ)

module _ (library : Texts) where
  unfoldable pub normalize_text_encoding : String → String
  normalize_text_encoding encoding =
      let lowered = dashed (library.lower (library.strip encoding)) in
      elim (Dict.lookup lowered aliases) [ none ↦ lowered | some name ↦ name ]

  unfoldable pub detect_with_charset_normalizer : Codecs → Bytes → Option TextEncodingDetection
  detect_with_charset_normalizer codecs raw = elim (codecs.best_guess raw) [
    | none ↦ none
    | some (encoding, confidence) ↦
        if encoding == ""
        then none
        else some (record {
          encoding = normalize_text_encoding encoding;
          confidence = confidence;
          source = "charset-normalizer";
        })
  ]

  -- What is left when no byte order mark and no pattern of null bytes tells.
  unfoldable pub detect_by_decoding : Codecs → Bytes → TextEncodingDetection
  detect_by_decoding codecs raw =
      if codecs.decodes "utf-8" raw
      then record { encoding = "utf-8"; confidence = 0x3fee666666666666; source = "strict-utf8" }
      else if codecs.decodes "cp1252" raw
      then record { encoding = "cp1252"; confidence = 0x3fe4cccccccccccd; source = "ansi-fallback" }
      else elim (detect_with_charset_normalizer codecs raw) [
        | none ↦ record {
          encoding = "latin-1";
          confidence = 0x3fd0000000000000;
          source = "fallback";
        }
        | some normalized ↦ normalized
      ]

  unfoldable pub detect_text_encoding : Codecs → Bytes → TextEncodingDetection
  detect_text_encoding codecs raw =
      if starts (0xef ∷ 0xbb ∷ 0xbf ∷ []) raw
      then record { encoding = "utf-8-sig"; confidence = certain; source = "bom" }
      else if starts (0xff ∷ 0xfe ∷ []) raw || starts (0xfe ∷ 0xff ∷ []) raw
      then record { encoding = "utf-16"; confidence = certain; source = "bom" }
      else elim (detect_utf16_without_bom raw) [
        | none ↦ detect_by_decoding codecs raw
        | some guess ↦ guess
      ]

  -- The loop of `_normalize_extensions`.
  abbrev pub dotted : List String → List String
  dotted [] = []
  dotted (value ∷ values) =
      let rest = dotted values in
      let item = library.lower (library.strip value) in
      if item == ""
      then rest
      else if starts_with item "."
      then item ∷ rest
      else ("." <> item) ∷ rest

  abbrev pub or_txt : List String → List String
  or_txt [] = default_text_extensions
  or_txt (v ∷ vs) = v ∷ vs

  unfoldable pub normalize_extensions : Option (List String) → List String
  normalize_extensions none = or_txt (dotted default_text_extensions)
  normalize_extensions (some values) = or_txt (dotted (or_txt values))
