-- ===== src/Batch/Files.antt =====
-- edc_translation/text_batch.py: reading, writing and finding the files of a batch. Paths and files
-- are those of pathlib: a parameter about which nothing is assumed.
use edctranslation_public.Prelude.{
  ℕ, String, ◌<>◌, Bool, true, ◌&&◌, Option, none, some, List, [], ◌∷◌, length, ◌==◌, contains,
  string_eq, not, if◌then◌else◌,
}
use edctranslation_public.Prelude.Errors.{Result, ok, err, value_error}
use edctranslation_public.Batch.Act.{
  BatchError, file_not_found, raised, Act, raise, reading, pure, ◌>>=◌, ◌>>◌,
}
use edctranslation_public.Auth.{Texts}
use edctranslation_public.Batch.Encoding.{
  Bytes, Codecs, TextEncodingDetection, certain, supported_output_encodings,
  normalize_text_encoding, normalize_extensions, detect_text_encoding,
}

-- `D` is the state of the disk. `glob` lists a directory by a pattern; `inside candidate output`
-- says whether the resolved candidate lies in the resolved output directory, `none` if it cannot be
-- resolved; `decode` replaces what it cannot decode and raises for an unknown encoding.
pub record Disk (D : Type 0) : Type 0 where
  pub exists : String → D → Bool
  pub is_file : String → D → Bool
  pub glob : String → String → D → List String
  pub inside : String → String → D → Option Bool
  pub suffix : String → String
  pub name : String → String
  pub parent : String → String
  pub join_path : String → String → String
  pub relative_to : String → String → Result BatchError String
  pub sorted_paths : List String → List String
  pub read_bytes : String → D → Result BatchError Bytes
  pub decode : String → Bytes → Result BatchError String
  pub sha256 : Bytes → String
  pub make_directory : String → Act D (Unit {0})
  pub write_text : String → String → String → Act D (Unit {0})

pub record DecodedTextFile : Type 0 where
  pub content : String
  pub encoding : String
  pub confidence : ℕ
  pub detection_source : String
  pub sha256 : String
  pub size_bytes : ℕ

abbrev pub auto : String
auto = "auto"

abbrev pub match_source : String
match_source = "match-source"

module _ (library : Texts) (codecs : Codecs) {D : Type 0} (disk : Disk D) where
  unfoldable pub read_text_file : String → String → Act D DecodedTextFile
  read_text_file path input_encoding = do
    raw ← reading (disk.read_bytes path)
    let normalized = normalize_text_encoding library input_encoding
    let detection : TextEncodingDetection =
        if normalized == auto
        then detect_text_encoding library codecs raw
        else record { encoding = normalized; confidence = certain; source = "caller" }
    content ← reading (λ d. disk.decode detection.encoding raw)
    pure (record {
      content = content;
      encoding = detection.encoding;
      confidence = detection.confidence;
      detection_source = detection.source;
      sha256 = disk.sha256 raw;
      size_bytes = length raw;
    })

  unfoldable pub output_encoding_of : String → String → String
  output_encoding_of output_encoding source_encoding =
      let normalized = normalize_text_encoding library output_encoding in
      normalize_text_encoding library
        (if normalized == match_source then source_encoding else normalized)

  -- `SUPPORTED_OUTPUT_ENCODINGS - {"match-source", "ansi"}`
  abbrev pub is_written : String → Bool
  is_written encoding =
      contains supported_output_encodings encoding
      && not (contains ("match-source" ∷ "ansi" ∷ []) encoding)

  unfoldable pub write_text_file : String → String → String → String → Act D String
  write_text_file path content output_encoding source_encoding =
      let encoding = output_encoding_of output_encoding source_encoding in
      if not (is_written encoding)
      then raise (raised (value_error ("Unsupported output encoding: " <> output_encoding)))
      else (do
        disk.make_directory (disk.parent path)
        disk.write_text path content encoding
        pure encoding)

  abbrev pub matches_extension : List String → String → Bool
  matches_extension extensions path = contains extensions (library.lower (disk.suffix path))

  -- Whether the loop of `discover_text_files` keeps a candidate.
  unfoldable pub is_source : String → List String → D → String → Bool
  is_source output_dir extensions d candidate =
      disk.is_file candidate d
      && matches_extension extensions candidate
      && elim (disk.inside candidate output_dir d) [ none ↦ true | some within ↦ not within ]

  abbrev pub sources : String → List String → D → List String → List String
  sources output_dir extensions d [] = []
  sources output_dir extensions d (candidate ∷ candidates) =
      let rest = sources output_dir extensions d candidates in
      if is_source output_dir extensions d candidate then candidate ∷ rest else rest

  unfoldable pub discover_text_files :
      String → String → Bool → Option (List String) → D → Result BatchError (List String)
  discover_text_files source_path output_dir recursive file_extensions d =
      let extensions = normalize_extensions library file_extensions in
      if not (disk.exists source_path d)
      then err (file_not_found ("Source path does not exist: " <> source_path))
      else if disk.is_file source_path d
      then ok (if matches_extension extensions source_path then source_path ∷ [] else [])
      else ok (
          disk.sorted_paths (
            sources output_dir extensions d
              (disk.glob source_path (if recursive then "**/*" else "*") d)))

  unfoldable pub relative_output_path : String → String → D → Result BatchError String
  relative_output_path path source_root d =
      if disk.is_file source_root d then ok (disk.name path) else disk.relative_to path source_root
