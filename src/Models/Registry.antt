-- ===== src/Models/Registry.antt =====
-- edc_translation/model_registry.py: model bundles, their validation and their statuses. The lock is
-- held while the statuses change, so a method is one step on them.
pub mod Laws
use edctranslation_public.Prelude.{
  String, ◌<>◌, Bool, true, false, ◌&&◌, Option, none, some, List, [], ◌∷◌, ◌++◌, map, ◌==◌,
  contains, string_eq, not, if◌then◌else◌,
}
use edctranslation_public.Prelude.Dict
use edctranslation_public.Prelude.Dict.{Dict}
use edctranslation_public.Prelude.Errors.{Result, ok, err, ◌>>=◌, Exception, key_error}
use edctranslation_public.Json.{
  Value, null, flag, text, list, dict, Payload, entries, fields, nil, items, Runtime, str, iterate,
  truthy, get_or, index, text_or,
}
use edctranslation_public.Auth.{Texts}
use edctranslation_public.Models.Provenance.{
  ProvenanceError, missing_error, corrupt_error, file_not_found, ModelDirectory,
  load_model_provenance_from_dir,
}

-- `errors` holds what a stored status carries, unconverted.
pub record ModelBundleStatus : Type 0 where
  pub model_id : String
  pub path : String
  pub valid : Bool
  pub approved : Bool
  pub errors : List Value
  pub provenance : Option Payload
  pub engine_family : Option String
  pub license : Option String
  pub vram_profile : Option String
  pub cache_location : Option String
  pub quality_evidence_ref : Option String
  pub updated_at : String

abbrev pub optional_text : Option String → Value
optional_text none = null
optional_text (some s) = text s

abbrev pub optional_dict : Option Payload → Value
optional_dict none = null
optional_dict (some d) = dict (fields d)

unfoldable pub to_dict : ModelBundleStatus → Payload
to_dict s =
    ("model_id", text s.model_id)
    ∷ ("path", text s.path)
    ∷ ("valid", flag s.valid)
    ∷ ("approved", flag s.approved)
    ∷ ("errors", list (items s.errors))
    ∷ ("provenance", optional_dict s.provenance)
    ∷ ("engine_family", optional_text s.engine_family)
    ∷ ("license", optional_text s.license)
    ∷ ("vram_profile", optional_text s.vram_profile)
    ∷ ("cache_location", optional_text s.cache_location)
    ∷ ("quality_evidence_ref", optional_text s.quality_evidence_ref)
    ∷ ("updated_at", text s.updated_at)
    ∷ []

-- `dict(value) if isinstance(value, dict) else None`
unfoldable pub dict_or_none : Value → Option Payload
dict_or_none (dict fs) = some (entries fs)
dict_or_none _ = none

module _ (py : Runtime) where
  unfoldable pub optional_str : Value → Option String
  optional_str null = none
  optional_str v = some (str py v)

  -- `list(value or [])`
  unfoldable pub list_or_empty : Value → Result Exception (List Value)
  list_or_empty v = if truthy v then iterate py v else ok []

  -- `now` is the time that stands for a missing one.
  unfoldable pub from_dict : String → Payload → Result Exception ModelBundleStatus
  from_dict now payload = do
    model_id ← index payload "model_id"
    path ← index payload "path"
    valid ← index payload "valid"
    approved ← index payload "approved"
    errors ← list_or_empty (get_or payload "errors" null)
    let time = get_or payload "updated_at" null
    ok (record {
      model_id = str py model_id;
      path = str py path;
      valid = truthy valid;
      approved = truthy approved;
      errors = errors;
      provenance = dict_or_none (get_or payload "provenance" null);
      engine_family = optional_str (get_or payload "engine_family" null);
      license = optional_str (get_or payload "license" null);
      vram_profile = optional_str (get_or payload "vram_profile" null);
      cache_location = optional_str (get_or payload "cache_location" null);
      quality_evidence_ref = optional_str (get_or payload "quality_evidence_ref" null);
      updated_at = if truthy time then str py time else now;
    })

abbrev pub Statuses : Type 0
Statuses = Dict String ModelBundleStatus

-- What the caller of `validate_bundle` states beside the directory.
pub record BundleOptions : Type 0 where
  pub model_id : Option String
  pub enforce_supply_chain : Bool
  pub engine_family : Option String
  pub vram_profile : Option String
  pub cache_location : Option String
  pub quality_evidence_ref : Option String

abbrev pub error_text : ProvenanceError → String
error_text (missing_error message) = message
error_text (corrupt_error message) = message
error_text (file_not_found message) = message

abbrev pub required_files : List String
required_files = "source.spm" ∷ "target.spm" ∷ []

abbrev pub missing_files : List String → List String → List String
missing_files files [] = []
missing_files files (file ∷ rest) =
    let errors = missing_files files rest in
    if contains files file then errors else ("missing required file: " <> file) ∷ errors

abbrev pub is_empty : List String → Bool
is_empty [] = true
is_empty (e ∷ es) = false

module _ (py : Runtime) (library : Texts) (is_base16 : String → Bool)
    (parse : String → Result String Value) where
  -- The errors of a bundle, and its provenance where that was accepted.
  unfoldable pub examine : ModelDirectory library is_base16 → Bool → List String × Option Payload
  examine directory enforce_supply_chain =
      if not directory.is_directory
      then (("model directory does not exist: " <> directory.path) ∷ [], none)
      else elim (load_model_provenance_from_dir library is_base16 parse directory
          enforce_supply_chain false) [
            | ok provenance ↦ (missing_files directory.files required_files, some provenance)
            | err e ↦ (missing_files directory.files required_files ++ error_text e ∷ [], none)
          ]

  -- `model_id or path.name or "model"`
  abbrev pub resolved_model_id : ModelDirectory library is_base16 → BundleOptions → String
  resolved_model_id directory options =
      text_or options.model_id (λ s. s) (if directory.name == "" then "model" else directory.name)

  -- `str(provenance["license"])`, where there is one.
  abbrev pub license_of : Option Payload → Option String
  license_of none = none
  license_of (some provenance) = optional_str py (get_or provenance "license" null)

  unfoldable pub status_of :
      ModelDirectory library is_base16 → BundleOptions → String → ModelBundleStatus
  status_of directory options now =
      let (errors, provenance) = examine directory options.enforce_supply_chain in
      record {
        model_id = resolved_model_id directory options;
        path = directory.path;
        valid = is_empty errors;
        approved = is_empty errors && options.enforce_supply_chain;
        errors = map text errors;
        provenance = provenance;
        engine_family = options.engine_family;
        license = license_of provenance;
        vram_profile = options.vram_profile;
        cache_location = options.cache_location;
        quality_evidence_ref = options.quality_evidence_ref;
        updated_at = now;
      }

  unfoldable pub validate_bundle :
      ModelDirectory library is_base16
      → BundleOptions
      → String
      → Statuses
      → ModelBundleStatus × Statuses
  validate_bundle directory options now statuses =
      let status = status_of directory options now in
      (status, Dict.insert status.model_id status statuses)

unfoldable pub list_statuses : Statuses → List ModelBundleStatus
list_statuses statuses = Dict.values statuses

unfoldable pub get : String → Statuses → Result Exception ModelBundleStatus
get id statuses = elim (Dict.lookup id statuses) [ none ↦ err (key_error id) | some s ↦ ok s ]
