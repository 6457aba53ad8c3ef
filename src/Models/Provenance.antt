-- ===== src/Models/Provenance.antt =====
-- edc_translation/provenance.py: the provenance record of a model and its validation.
pub mod Laws
use edctranslation_public.Prelude.{
  ℕ, String, ◌<>◌, Bool, true, false, ◌&&◌, Option, none, some, List, [], ◌∷◌, ◌==◌, contains,
  string_eq, nat_eq, not, if◌then◌else◌,
}
use edctranslation_public.Prelude.Dict
use edctranslation_public.Prelude.Errors.{Result, ok, err, ◌>>=◌, ◌>>◌, guard}
use edctranslation_public.Json.{Value, null, text, dict, Payload, entries, get_or}
use edctranslation_public.Kafka.Text.{join}
use edctranslation_public.Auth.{Texts}
use edctranslation_public.Auth.Text.{size}

pub data ProvenanceError : Type 0 where
  missing_error : String → ProvenanceError
  corrupt_error : String → ProvenanceError
  file_not_found : String → ProvenanceError

pub record ModelProvenance : Type 0 where
  pub slsa_provenance_uri : String
  pub intoto_attestation_sha256 : String
  pub sbom_sha256 : String
  pub weights_sha256 : String
  pub license : String
  pub runtime_version : String

abbrev pub unloaded_weight_sentinels : List String
unloaded_weight_sentinels = "not_loaded" ∷ "n/a" ∷ "unknown" ∷ []

abbrev pub unverified : String
unverified = "unverified"

abbrev pub not_a_digest : String → ProvenanceError
not_a_digest field = missing_error (field <> " must be a 64-character SHA-256 hex digest")

abbrev pub not_loaded : ProvenanceError
not_loaded =
    missing_error "weights_sha256 must be a real SHA-256 digest for loaded model provenance"

-- `is_base16 s` says whether `int(s, 16)` succeeds.
module _ (library : Texts) (is_base16 : String → Bool) where
  -- `not isinstance(value, str) or not value.strip()`
  abbrev pub is_blank : Value → Bool
  is_blank (text s) = library.strip s == ""
  is_blank _ = true

  abbrev pub empty_field : String → ProvenanceError
  empty_field field =
      missing_error
        ("model provenance field " <> library.repr field <> " must be a non-empty string")

  unfoldable pub required_string_value : String → Value → Result ProvenanceError String
  required_string_value field (text s) =
      if library.strip s == "" then err (empty_field field) else ok (library.strip s)
  required_string_value field _ = err (empty_field field)

  unfoldable pub required_string : String → Payload → Result ProvenanceError String
  required_string field provenance = required_string_value field (get_or provenance field null)

  unfoldable pub normalize_sha256 : String → String → Result ProvenanceError String
  normalize_sha256 field value = do
    guard (size value == 64) (not_a_digest field)
    guard (is_base16 value) (not_a_digest field)
    ok value

  unfoldable pub normalize_weights_sha256 : String → Bool → Result ProvenanceError String
  normalize_weights_sha256 value allow_unloaded_weights =
      let normalized = library.lower (library.strip value) in
      if contains unloaded_weight_sentinels normalized
      then if allow_unloaded_weights then ok normalized else err not_loaded
      else normalize_sha256 "weights_sha256" normalized

  unfoldable pub normalize_optional_sha256 : String → Value → Result ProvenanceError String
  normalize_optional_sha256 field value = do
    required ← required_string_value field value
    let normalized = library.lower required
    if normalized == unverified then ok normalized else normalize_sha256 field normalized

  unfoldable pub coalesce_unverified : Value → Value
  coalesce_unverified value = if is_blank value then text unverified else value

  abbrev pub blank_fields : List (String × Value) → List String
  blank_fields [] = []
  blank_fields ((field, value) ∷ rest) =
      let names = blank_fields rest in if is_blank value then field ∷ names else names

  abbrev pub lacks_fields : List String → ProvenanceError
  lacks_fields missing =
      missing_error ("model provenance missing required supply-chain fields: " <> join ", " missing)

  abbrev pub is_nonempty : List String → Bool
  is_nonempty [] = false
  is_nonempty (s ∷ ss) = true

  -- The names of the supply-chain fields that are blank.
  abbrev pub missing_fields : Payload → List String
  missing_fields provenance = blank_fields (
      ("slsa_provenance_uri", get_or provenance "slsa_provenance_uri" null)
      ∷ ("intoto_attestation_sha256", get_or provenance "intoto_attestation_sha256" null)
      ∷ ("sbom_sha256", get_or provenance "sbom_sha256" null)
      ∷ [])

  -- A supply-chain field, made up for where one of them is missing.
  abbrev pub supply_value : Payload → String → Value
  supply_value provenance field =
      let value = get_or provenance field null in
      if is_nonempty (missing_fields provenance) then coalesce_unverified value else value

  unfoldable pub validate_model_provenance :
      Payload → Bool → Bool → Result ProvenanceError ModelProvenance
  validate_model_provenance provenance enforce_supply_chain allow_unloaded_weights = do
    weights ← required_string "weights_sha256" provenance
    license ← required_string "license" provenance
    runtime_version ← required_string "runtime_version" provenance
    weights_sha256 ← normalize_weights_sha256 weights allow_unloaded_weights
    guard (not (is_nonempty (missing_fields provenance) && enforce_supply_chain))
        (lacks_fields (missing_fields provenance))
    slsa ←
        required_string_value "slsa_provenance_uri" (supply_value provenance "slsa_provenance_uri")
    intoto ←
        normalize_optional_sha256 "intoto_attestation_sha256"
          (supply_value provenance "intoto_attestation_sha256")
    sbom ← normalize_optional_sha256 "sbom_sha256" (supply_value provenance "sbom_sha256")
    ok (record {
      slsa_provenance_uri = slsa;
      intoto_attestation_sha256 = intoto;
      sbom_sha256 = sbom;
      weights_sha256 = weights_sha256;
      license = license;
      runtime_version = runtime_version;
    })

  -- `normalized.update(record.to_dict())`
  unfoldable pub updated : ModelProvenance → Payload → Payload
  updated p d = Dict.insert "runtime_version" (text p.runtime_version) (
      Dict.insert "license" (text p.license) (
        Dict.insert "weights_sha256" (text p.weights_sha256) (
          Dict.insert "sbom_sha256" (text p.sbom_sha256) (
            Dict.insert "intoto_attestation_sha256" (text p.intoto_attestation_sha256)
              (Dict.insert "slsa_provenance_uri" (text p.slsa_provenance_uri) d)))))

  unfoldable pub normalize_model_provenance : Payload → Bool → Bool → Result ProvenanceError Payload
  normalize_model_provenance provenance enforce_supply_chain allow_unloaded_weights = do
    p ← validate_model_provenance provenance enforce_supply_chain allow_unloaded_weights
    ok (updated p provenance)

  -- What the directory of a model shows: `provenance_text` is the text of its `provenance.json`, at
  -- `provenance_path`, if that is a file; a file that is there is taken to be readable as UTF-8.
  pub record ModelDirectory : Type 0 where
    pub path : String
    pub name : String
    pub is_directory : Bool
    pub files : List String
    pub provenance_path : String
    pub provenance_text : Option String

  -- `parse` is `json.loads`, with the message of its error.
  unfoldable pub load_model_provenance_from_dir :
      (String → Result String Value) → ModelDirectory → Bool → Bool → Result ProvenanceError Payload
  load_model_provenance_from_dir parse directory enforce_supply_chain allow_unloaded_weights =
      elim directory.provenance_text [
        | none ↦
            err (file_not_found ("model provenance file missing at " <> directory.provenance_path))
        | some content ↦ elim (parse content) [
          | err message ↦ err (
              corrupt_error (
                "model provenance file at " <> directory.provenance_path <> " is not valid JSON: "
                <> message))
          | ok (dict fs) ↦
              normalize_model_provenance (entries fs) enforce_supply_chain allow_unloaded_weights
          | ok other ↦ err (
              corrupt_error (
                "model provenance file at " <> directory.provenance_path
                <> " must contain a JSON object"))
        ]
      ]
