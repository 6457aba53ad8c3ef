-- ===== src/LanguageId.antt =====
-- edc_translation/language_id.py: the language of a text, by a fastText model where there is one and
-- by keywords otherwise.
use edctranslation_public.Prelude.{
  ℕ, suc, String, Bool, Option, none, some, List, [], ◌∷◌, ◌==◌, string_eq, ltb, contains,
  if◌then◌else◌,
}
use edctranslation_public.Json.{Value, null, text, Payload}

-- A confidence is the number that Python writes for it.
pub record LanguageDetection : Type 0 where
  pub language : String
  pub confidence : Value
  pub provider : String
  pub model_id : Option String

unfoldable pub to_dict : LanguageDetection → Payload
to_dict d =
    ("language", text d.language)
    ∷ ("confidence", d.confidence)
    ∷ ("provider", text d.provider)
    ∷ ("model_id", elim d.model_id [ none ↦ null | some id ↦ text id ])
    ∷ []

abbrev pub fasttext_lid_model_env : String
fasttext_lid_model_env = "EDC_TRANSLATION_FASTTEXT_LID_MODEL"

-- `len(tokens.intersection(keywords))`, for keywords that differ from each other.
unfoldable pub keyword_score : List String → List String → ℕ
keyword_score tokens [] = 0
keyword_score tokens (word ∷ words) =
    let score = keyword_score tokens words in if contains tokens word then suc score else score

abbrev pub keywords : List (String × List String)
keywords =
    ("en", "the" ∷ "and" ∷ "hello" ∷ "world" ∷ "contract" ∷ "this" ∷ "is" ∷ "signed" ∷ [])
    ∷ ("fr", "le" ∷ "la" ∷ "les" ∷ "bonjour" ∷ "monde" ∷ "contrat" ∷ "est" ∷ "signé" ∷ [])
    ∷ ("es", "el" ∷ "la" ∷ "los" ∷ "hola" ∷ "mundo" ∷ "contrato" ∷ "está" ∷ "firmado" ∷ [])
    ∷ ("de", "der" ∷ "die" ∷ "das" ∷ "hallo" ∷ "welt" ∷ "vertrag" ∷ "ist" ∷ [])
    ∷ ("it", "il" ∷ "la" ∷ "ciao" ∷ "mondo" ∷ "contratto" ∷ "firmato" ∷ [])
    ∷ ("pt", "o" ∷ "a" ∷ "olá" ∷ "mundo" ∷ "contrato" ∷ "assinado" ∷ [])
    ∷ []

-- `max` by the score: the first of the best, after `best`.
unfoldable pub best_of : List String → String × ℕ → List (String × List String) → String × ℕ
best_of tokens best [] = best
best_of tokens best ((language, words) ∷ rest) =
    let score = keyword_score tokens words in
    best_of tokens (if ltb best.1 score then (language, score) else best) rest

-- What the text, the environment and the fastText library give. `model` is the file at the path that
-- is configured, if that is a file and the library is there: its name, and what it predicts. Its
-- exceptions are left out.
pub record Identifier : Type 0 where
  pub casefold : String → String
  -- `re.findall(r"[\w']+", s, flags=re.UNICODE)`
  pub tokens : String → List String
  pub is_ascii : String → Bool
  -- `" ".join(s.split())`
  pub normalize : String → String
  pub strip_label : String → String
  pub without_newlines : String → String
  -- The floats 0.0, 0.1, 0.35 and `min(0.85, 0.45 + n * 0.1)`.
  pub zero_float : Value
  pub tenth : Value
  pub ascii_confidence : Value
  pub keyword_confidence : ℕ → Value
  pub model : String → Option (String × (String → List String × List Value))

module _ (library : Identifier) where
  unfoldable pub heuristic_language_detection : String → LanguageDetection
  heuristic_language_detection content =
      let (best_language, best_score) =
        best_of (library.tokens (library.casefold content)) ("en", 0) keywords in
      if ltb 0 best_score
      then record {
        language = best_language;
        confidence = library.keyword_confidence best_score;
        provider = "heuristic";
        model_id = none;
      }
      else if library.is_ascii content
      then record {
        language = "en";
        confidence = library.ascii_confidence;
        provider = "ascii-default";
        model_id = none;
      }
      else record {
        language = "und";
        confidence = library.tenth;
        provider = "heuristic";
        model_id = none;
      }

  -- The path that a caller gives, or else the one of the environment.
  abbrev pub configured_path : Option String → Option String → String
  configured_path model_path variable =
      let fallback : String = elim variable [ none ↦ "" | some value ↦ value ] in
      elim model_path [ none ↦ fallback | some path ↦ if path == "" then fallback else path ]

  -- The first of the labels, with the first of the probabilities.
  unfoldable pub predicted : String → List String × List Value → Option LanguageDetection
  predicted name ([], probabilities) = none
  predicted name (label ∷ labels, probabilities) = some (record {
    language = library.strip_label label;
    confidence = elim probabilities [ [] ↦ library.zero_float | p ∷ ps ↦ p ];
    provider = "facebook-fasttext-lid";
    model_id = some name;
  })

  unfoldable pub detect_with_fasttext :
      String → Option String → Option String → Option LanguageDetection
  detect_with_fasttext content model_path variable =
      let path = configured_path model_path variable in
      if path == "" then none else elim (library.model path) [
        | none ↦ none
        | some (name, predict) ↦ predicted name (predict (library.without_newlines content))
      ]

  unfoldable pub detect_language : String → Option String → Option String → LanguageDetection
  detect_language content model_path variable =
      let normalized = library.normalize content in
      if normalized == ""
      then record {
        language = "und";
        confidence = library.zero_float;
        provider = "empty";
        model_id = none;
      }
      else elim (detect_with_fasttext normalized model_path variable) [
        | some detection ↦ detection
        | none ↦ heuristic_language_detection normalized
      ]
