-- ===== src/Batch/Bundle.antt =====
-- edc_translation/text_batch.py: `_bundle_to_text`, the translated spans in the order of their pages.
use edctranslation_public.Prelude.{String, Bool, true, false, List, [], ◌∷◌, if◌then◌else◌}
use edctranslation_public.Prelude.Errors.{Result, ok, Exception, ◌>>=◌}
use edctranslation_public.Json.{ℤ, Value, Payload, Runtime, str, iterate, int_of, index}
use edctranslation_public.Kafka.Text.{comes_first, join}
use edctranslation_public.Auth.Times.{before}
use edctranslation_public.Auth.Tokens.{subscript}

-- A span with its sort key.
abbrev pub Line : Type 0
Line = ℤ × String × Value

abbrev pub comes_later : Line → Line → Bool
comes_later (page, id, span) (page', id', span') =
    if before page' page then true else if before page page' then false else comes_first id' id

abbrev pub place_line : Line → List Line → List Line
place_line x [] = x ∷ []
place_line x (y ∷ ys) =
    let rest = place_line x ys in if comes_later x y then y ∷ rest else x ∷ y ∷ ys

-- `sorted` by page number and span id; what sorts alike keeps its order.
abbrev pub sorted_lines : List Line → List Line
sorted_lines [] = []
sorted_lines (x ∷ xs) = place_line x (sorted_lines xs)

module _ (py : Runtime) where
  unfoldable pub lines_of : List Value → Result Exception (List Line)
  lines_of [] = ok []
  lines_of (span ∷ spans) = do
    page ← subscript span "page_number"
    number ← int_of py page
    id ← subscript span "span_id"
    rest ← lines_of spans
    ok ((number, str py id, span) ∷ rest)

  unfoldable pub contents : List Line → Result Exception (List String)
  contents [] = ok []
  contents ((page, id, span) ∷ lines) = do
    content ← subscript span "translated_text"
    rest ← contents lines
    ok (str py content ∷ rest)

  unfoldable pub bundle_to_text : Payload → Result Exception String
  bundle_to_text bundle = do
    spans ← index bundle "translated_spans"
    values ← iterate py spans
    lines ← lines_of values
    texts ← contents (sorted_lines lines)
    ok (join "\n" texts)
