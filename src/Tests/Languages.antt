-- ===== src/Tests/Languages.antt =====
-- edc_translation/language_id.py at concrete texts.
use edctranslation_public.Prelude.{◌≡◌, refl, true, none, some, [], ◌∷◌, string_eq, nat_eq}
use edctranslation_public.Json.{text, whole, pos}
use edctranslation_public.LanguageId.{
  Identifier, detect_language, detect_with_fasttext, heuristic_language_detection, best_of,
  keyword_score, predicted,
}

-- A library for texts that are one word, with a model at the path "m".
abbrev library : Identifier
library = record {
  casefold = λ s. s;
  tokens = λ s. s ∷ [];
  is_ascii = λ s. true;
  normalize = λ s. s;
  strip_label = λ s. s;
  without_newlines = λ s. s;
  zero_float = text "0.0";
  tenth = text "0.1";
  ascii_confidence = text "0.35";
  keyword_confidence = λ n. whole (pos n);
  model =
      λ p. elim (string_eq.dec p "m") [ yes e ↦ some ("lid", λ s. ("nl" ∷ [], [])) | no d ↦ none ];
}

-- A word of three languages goes to the first of them.
keyword-first : (detect_language library "la" none none).language ≡ "fr"
unfolding detect_language detect_with_fasttext heuristic_language_detection best_of keyword_score
    string_eq nat_eq
keyword-first = refl

model-first : (detect_language library "la" (some "") (some "m")).language ≡ "nl"
unfolding detect_language detect_with_fasttext predicted string_eq
model-first = refl
