-- ===== src/Tests/Bundles.antt =====
-- A model bundle that is approved, and its stored status.
use edctranslation_public.Prelude.{
  String, ◌≡◌, refl, Bool, true, false, none, some, [], ◌∷◌, ◌==◌, string_eq, nat_eq,
}
use edctranslation_public.Prelude.Dict
use edctranslation_public.Prelude.Errors.{Result, ok}
use edctranslation_public.Json.{Value, text, dict, fields, Payload}
use edctranslation_public.Models.Provenance.{
  ModelDirectory, load_model_provenance_from_dir, normalize_model_provenance,
  validate_model_provenance, required_string, required_string_value, normalize_weights_sha256,
  normalize_sha256, normalize_optional_sha256, coalesce_unverified,
}
use edctranslation_public.Models.Registry.{
  BundleOptions, ModelBundleStatus, validate_bundle, status_of, examine, get, to_dict, from_dict,
}
use edctranslation_public.Models.Registry.Laws.{
  IsComplete, validate_bundle-IsComplete, from_dict-to_dict_status,
}
use edctranslation_public.Tests.Fixtures.{py}
use edctranslation_public.Tests.Crypto.{texts}

abbrev digest : String
digest = "0123456789abcdef0123456789abcdef0123456789abcdef0123456789abcdef"

abbrev provenance : Payload
provenance =
    ("weights_sha256", text digest)
    ∷ ("license", text "MIT")
    ∷ ("runtime_version", text "1.0")
    ∷ ("slsa_provenance_uri", text "https://example.org/slsa")
    ∷ ("intoto_attestation_sha256", text "unverified")
    ∷ ("sbom_sha256", text digest)
    ∷ []

abbrev is_base16 : String → Bool
is_base16 s = true

abbrev parse : String → Result String Value
parse s = ok (dict (fields provenance))

abbrev directory : ModelDirectory texts is_base16
directory = record {
  path = "models/en-fr";
  name = "en-fr";
  is_directory = true;
  files = "source.spm" ∷ "target.spm" ∷ [];
  provenance_path = "models/en-fr/provenance.json";
  provenance_text = some "{}";
}

abbrev options : BundleOptions
options = record {
  model_id = none;
  enforce_supply_chain = true;
  engine_family = none;
  vram_profile = none;
  cache_location = none;
  quality_evidence_ref = none;
}

approved : (validate_bundle py texts is_base16 parse directory options "now" []).0.approved ≡ true
unfolding validate_bundle status_of examine load_model_provenance_from_dir
    normalize_model_provenance validate_model_provenance required_string required_string_value
    normalize_weights_sha256 normalize_sha256 normalize_optional_sha256 coalesce_unverified
    Dict.lookup string_eq nat_eq
approved = refl

validate_bundle-IsComplete_example :
    (let (status, statuses) = validate_bundle py texts is_base16 parse directory options "now" [] in
      (options.enforce_supply_chain ≡ true)
      × IsComplete py texts is_base16 parse directory options.enforce_supply_chain status.provenance
      × (get status.model_id statuses ≡ ok status))
validate_bundle-IsComplete_example =
    validate_bundle-IsComplete py texts is_base16 parse directory options "now" [] approved

abbrev status : ModelBundleStatus
status = record {
  model_id = "en-fr";
  path = "models/en-fr";
  valid = true;
  approved = true;
  errors = [];
  provenance = some provenance;
  engine_family = none;
  license = some "MIT";
  vram_profile = none;
  cache_location = none;
  quality_evidence_ref = none;
  updated_at = "2026-01-01";
}

status-dated : (status.updated_at == "") ≡ false
unfolding string_eq
status-dated = refl

from_dict-to_dict_status_example : from_dict py "later" (to_dict status) ≡ ok status
from_dict-to_dict_status_example = from_dict-to_dict_status py "later" status status-dated
