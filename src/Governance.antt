-- ===== src/Governance.antt =====
-- edc_translation/governance.py: tenant policies, glossaries and instruction sets. The repositories
-- hold a lock in each access, so a method is one step on its dict; `update` of the policies is two.
pub mod Laws
use edctranslation_public.Prelude.{
  String, ◌<>◌, Bool, true, false, ◌&&◌, Option, none, some, List, [], ◌∷◌, ◌++◌, ◌==◌, contains,
  string_eq, not, if◌then◌else◌,
}
use edctranslation_public.Prelude.Dict
use edctranslation_public.Prelude.Dict.{Dict}
use edctranslation_public.Prelude.Errors.{Result, ok, err, Exception, key_error}
use edctranslation_public.Json.{
  Value, null, flag, whole, pos, text, list, dict, Payload, fields, texts, get_or,
}

abbrev pub default_tenant_id : String
default_tenant_id = "standalone"

abbrev pub default_instruction_set_id : String
default_instruction_set_id = "baseline-legal-neutral"

-- `update` stores what it is given, so the fields but the tenant hold any value.
pub record TenantPolicy : Type 0 where
  pub tenant_id : String
  pub default_provider_id : Value
  pub allow_nc_licensed : Value
  pub allowed_provider_families : Value
  pub blocked_provider_families : Value
  pub approved_instruction_set_ids : Value
  pub glossary_ids : Value
  pub cloud_residency_evidence_required : Value
  pub retention_policy : Value

-- `TenantPolicy(tenant_id=tenant_id)`
abbrev pub default_policy : String → TenantPolicy
default_policy tenant_id = record {
  tenant_id = tenant_id;
  default_provider_id = text "passthrough";
  allow_nc_licensed = flag false;
  allowed_provider_families =
      list (texts ("passthrough" ∷ "ct2_nmt" ∷ "llm_local" ∷ "quality_estimation" ∷ []));
  blocked_provider_families = list (texts ("llm_cloud" ∷ []));
  approved_instruction_set_ids = list (texts (default_instruction_set_id ∷ []));
  glossary_ids = list (texts []);
  cloud_residency_evidence_required = flag true;
  retention_policy = text "process_local_only";
}

unfoldable pub policy_to_dict : TenantPolicy → Payload
policy_to_dict p =
    ("tenant_id", text p.tenant_id)
    ∷ ("default_provider_id", p.default_provider_id)
    ∷ ("allow_nc_licensed", p.allow_nc_licensed)
    ∷ ("allowed_provider_families", p.allowed_provider_families)
    ∷ ("blocked_provider_families", p.blocked_provider_families)
    ∷ ("approved_instruction_set_ids", p.approved_instruction_set_ids)
    ∷ ("glossary_ids", p.glossary_ids)
    ∷ ("cloud_residency_evidence_required", p.cloud_residency_evidence_required)
    ∷ ("retention_policy", p.retention_policy)
    ∷ []

-- `TenantPolicy(**payload)`, whose keys are the fields, for a tenant.
unfoldable pub policy_of : String → Payload → TenantPolicy
policy_of tenant_id payload = record {
  tenant_id = tenant_id;
  default_provider_id = get_or payload "default_provider_id" null;
  allow_nc_licensed = get_or payload "allow_nc_licensed" null;
  allowed_provider_families = get_or payload "allowed_provider_families" null;
  blocked_provider_families = get_or payload "blocked_provider_families" null;
  approved_instruction_set_ids = get_or payload "approved_instruction_set_ids" null;
  glossary_ids = get_or payload "glossary_ids" null;
  cloud_residency_evidence_required = get_or payload "cloud_residency_evidence_required" null;
  retention_policy = get_or payload "retention_policy" null;
}

abbrev pub Policies : Type 0
Policies = Dict String TenantPolicy

abbrev pub initial_policies : Policies
initial_policies = (default_tenant_id, default_policy default_tenant_id) ∷ []

unfoldable pub get_policy : String → Policies → TenantPolicy × Policies
get_policy tenant_id policies = elim (Dict.lookup tenant_id policies) [
  | none ↦ (default_policy tenant_id, Dict.insert tenant_id (default_policy tenant_id) policies)
  | some p ↦ (p, policies)
]

unfoldable pub set_policy : TenantPolicy → Policies → TenantPolicy × Policies
set_policy p policies = (p, Dict.insert p.tenant_id p policies)

-- The loop of `update` over the changes.
unfoldable pub apply_updates : List String → Payload → Payload → Payload
apply_updates allowed_fields [] payload = payload
apply_updates allowed_fields ((key, value) ∷ updates) payload =
    apply_updates allowed_fields updates (
      if contains allowed_fields key && not (key == "tenant_id")
      then Dict.insert key value payload
      else payload)

unfoldable pub update_policy : String → Payload → Policies → TenantPolicy × Policies
update_policy tenant_id updates policies =
    let (current, policies') = get_policy tenant_id policies in
    let payload = policy_to_dict current in
    set_policy (policy_of tenant_id (apply_updates (Dict.keys payload) updates payload)) policies'

pub record Glossary : Type 0 where
  pub glossary_id : String
  pub name : String
  pub source_language : String
  pub target_language : String
  pub entries : Dict String String
  pub approved : Bool

abbrev pub Glossaries : Type 0
Glossaries = Dict String Glossary

unfoldable pub upsert_glossary : Glossary → Glossaries → Glossary × Glossaries
upsert_glossary g glossaries = (g, Dict.insert g.glossary_id g glossaries)

unfoldable pub get_glossary : String → Glossaries → Result Exception Glossary
get_glossary id glossaries = elim (Dict.lookup id glossaries) [
  | none ↦ err (key_error id)
  | some g ↦ ok g
]

unfoldable pub list_glossaries : Glossaries → List Glossary
list_glossaries glossaries = Dict.values glossaries

unfoldable pub delete_glossary : String → Glossaries → Result Exception (Unit {0}) × Glossaries
delete_glossary id glossaries = elim (Dict.lookup id glossaries) [
  | none ↦ (err (key_error id), glossaries)
  | some g ↦ (ok tt, Dict.erase id glossaries)
]

pub record InstructionSet : Type 0 where
  pub instruction_set_id : String
  pub version : String
  pub allowed_engine_families : List String
  pub document_classes : List String
  pub target_language_constraints : List String
  pub template : String
  pub deterministic_settings : Payload
  pub safety_constraints : List String
  pub approval : Payload
  pub deprecated : Bool

abbrev pub baseline : InstructionSet
baseline = record {
  instruction_set_id = default_instruction_set_id;
  version = "1.0.0";
  allowed_engine_families = "passthrough" ∷ "ct2_nmt" ∷ "llm_local" ∷ [];
  document_classes = "general" ∷ "legal" ∷ "edc" ∷ [];
  target_language_constraints = "*" ∷ [];
  template =
      "Translate faithfully, preserve legal meaning, preserve span boundaries, and do not add facts.";
  deterministic_settings = ("temperature", whole (pos 0)) ∷ ("seed", whole (pos 42)) ∷ [];
  safety_constraints =
      "no_unapproved_cloud_routing" ∷ "preserve_privilege_markers"
      ∷ "emit_translation_bundle_v1_only" ∷ [];
  approval =
      ("status", text "approved")
      ∷ ("approved_by", text "local-skeleton-policy")
      ∷ ("approved_at", text "2026-05-14T00:00:00Z")
      ∷ [];
  deprecated = false;
}

-- `sha256` is the hex digest of a text's UTF-8 bytes.
unfoldable pub instruction_set_to_dict : (String → String) → InstructionSet → Payload
instruction_set_to_dict sha256 s =
    ("instruction_set_id", text s.instruction_set_id)
    ∷ ("version", text s.version)
    ∷ ("allowed_engine_families", list (texts s.allowed_engine_families))
    ∷ ("document_classes", list (texts s.document_classes))
    ∷ ("target_language_constraints", list (texts s.target_language_constraints))
    ∷ ("template", text s.template)
    ∷ ("deterministic_settings", dict (fields s.deterministic_settings))
    ∷ ("safety_constraints", list (texts s.safety_constraints))
    ∷ ("approval", dict (fields s.approval))
    ∷ ("deprecated", flag s.deprecated)
    ∷ ("template_sha256", text (sha256 s.template))
    ∷ []

abbrev pub InstructionSets : Type 0
InstructionSets = Dict String InstructionSet

abbrev pub initial_instruction_sets : InstructionSets
initial_instruction_sets = (default_instruction_set_id, baseline) ∷ []

unfoldable pub get_instruction_set : String → InstructionSets → Result Exception InstructionSet
get_instruction_set id sets = elim (Dict.lookup id sets) [
  | none ↦ err (key_error id)
  | some s ↦ ok s
]

unfoldable pub list_instruction_sets : InstructionSets → List InstructionSet
list_instruction_sets sets = Dict.values sets

unfoldable pub upsert_instruction_set :
    InstructionSet → InstructionSets → InstructionSet × InstructionSets
upsert_instruction_set s sets = (s, Dict.insert s.instruction_set_id s sets)

-- `casefold` is the method of texts, `within term s` is `term in s`.
module _ (casefold : String → String) (within : String → String → Bool) where
  abbrev pub term_hits : String → String → Dict String String → List String
  term_hits lowered id [] = []
  term_hits lowered id ((term, translation) ∷ rest) =
      let hits = term_hits lowered id rest in
      if within (casefold term) lowered then (id <> ":" <> term) ∷ hits else hits

  abbrev pub glossary_hits : String → List Glossary → List String
  glossary_hits lowered [] = []
  glossary_hits lowered (g ∷ gs) =
      let hits = glossary_hits lowered gs in
      if not g.approved then hits else term_hits lowered g.glossary_id g.entries ++ hits

  unfoldable pub find_glossary_hits : String → List Glossary → List String
  find_glossary_hits content glossaries = glossary_hits (casefold content) glossaries
