-- ===== src/Routing.antt =====
-- edc_translation/routing.py: the choice of an engine for a request whose provider is "auto", and
-- the diagnostics of that choice.
pub mod Choice
pub mod Resolution
use edctranslation_public.Prelude.{
  String, ◌<>◌, Bool, true, false, ◌&&◌, ◌||◌, not, Option, none, some, List, [], ◌∷◌, ◌++◌, ◌==◌,
  string_eq, keep, starts_with, if◌then◌else◌,
}
use edctranslation_public.Prelude.Dict
use edctranslation_public.Prelude.Dict.{Dict}
use edctranslation_public.Prelude.Errors.{Result, ok, err}
use edctranslation_public.Json.{text_or}

-- What routing reads of an engine class; `none` for the pairs is "any", and for the others a
-- missing attribute.
pub record Engine : Type 0 where
  pub license : String
  pub quality_class : String
  pub provider_retention_class : String
  pub supports_pairs : Option (List (String × String))
  pub model_dir_env : Option String
  pub tokenizer_files : Option (List String)

-- The process environment, the files below a model directory, and two methods of `str`.
pub record Environment : Type 0 where
  pub getenv : String → Option String
  pub is_dir : String → Bool
  pub is_file : String → String → Bool
  pub strip : String → String
  pub lower : String → String

pub record EngineRoutingPolicy : Type 0 where
  pub allow_nc_licensed : Bool
  pub preferred_engine_ids : List String

pub record EngineAvailability : Type 0 where
  pub available : Bool
  pub reason : String

-- The entries that only a registered engine's candidate has.
pub record Details : Type 0 where
  pub license : String
  pub quality_class : String
  pub provider_retention_class : String

pub record Candidate : Type 0 where
  pub id : String
  pub registered : Bool
  pub eligible : Bool
  pub selected : Bool
  pub reason : String
  pub details : Option Details
  pub model_dir_env : Option String
  pub model_dir_configured : Bool

pub record Diagnostics : Type 0 where
  pub source_language : String
  pub target_language : String
  pub allow_nc_licensed : Bool
  pub selected_provider_id : Option String
  pub candidates : List Candidate

pub data RoutingError : Type 0 where
  routing_error : String → Diagnostics → RoutingError

abbrev pub auto_provider_id : String
auto_provider_id = "auto"

abbrev pub default_auto_engine_ids : List String
default_auto_engine_ids = "local_ct2_opus" ∷ "local_ct2_madlad" ∷ "local_ct2_nllb" ∷ []

abbrev pub or_empty : Option String → String
or_empty none = ""
or_empty (some s) = s

abbrev pub or_none : String → Option String
or_none s = if s == "" then none else some s

abbrev pub join : String → List String → String
join sep [] = ""
join sep (s ∷ []) = s
join sep (s ∷ t ∷ ss) = s <> sep <> join sep (t ∷ ss)

abbrev pub contains_nc : String → Bool
contains_nc String.[] = false
contains_nc (String.◌∷◌ c s) = starts_with (String.◌∷◌ c s) "nc" || contains_nc s

abbrev pub member : String → List String → Bool
member s [] = false
member s (t ∷ ts) = s == t || member s ts

abbrev pub has_pair : String → String → List (String × String) → Bool
has_pair s t [] = false
has_pair s t ((a, b) ∷ ps) = (s == a && t == b) || has_pair s t ps

-- The loop of `_ordered_auto_engine_ids` over the ids that remain.
unfoldable pub unseen : List String → List String → List String
unseen seen [] = []
unseen seen (id ∷ ids) =
    let skipped = unseen seen ids in
    let taken = unseen (id ∷ seen) ids in if member id seen then skipped else id ∷ taken

unfoldable pub ordered_auto_engine_ids : EngineRoutingPolicy → List String
ordered_auto_engine_ids policy = unseen [] (policy.preferred_engine_ids ++ default_auto_engine_ids)

-- `auto_route_unavailable_message` of edc_translation/errors.py
abbrev pub explained : List Candidate → List String
explained [] = []
explained (c ∷ cs) = (c.id <> ": " <> c.reason) ∷ explained cs

unfoldable pub auto_route_unavailable_message : String → String → Diagnostics → String
auto_route_unavailable_message source target d =
    let detail = join "; " (explained d.candidates) in
    "No auto-routeable translation engine for "
    <> source
    <> "->"
    <> target
    <> ": "
    <> (if detail == "" then "no candidate engines configured" else detail)

module _ (env : Environment) where
  abbrev pub lower_pairs : List (String × String) → List (String × String)
  lower_pairs [] = []
  lower_pairs ((a, b) ∷ ps) = (env.lower a, env.lower b) ∷ lower_pairs ps

  unfoldable pub supports_pair : Engine → String → String → Bool
  supports_pair e source target = elim e.supports_pairs [
    | none ↦ true
    | some ps ↦ has_pair (env.lower source) (env.lower target) (lower_pairs ps)
  ]

  unfoldable pub is_nc_licensed : Engine → Bool
  is_nc_licensed e = contains_nc (env.lower e.license)

  abbrev pub tokenizer_names : Engine → List String
  tokenizer_names e = elim e.tokenizer_files [
    | none ↦ "source.spm" ∷ "target.spm" ∷ []
    | some names ↦ names
  ]

  abbrev pub unavailable : String → EngineAvailability
  unavailable reason = record { available = false; reason = reason }

  unfoldable pub engine_availability : Engine → EngineAvailability
  engine_availability e =
      let variable = or_empty e.model_dir_env in
      let model_dir = env.strip (or_empty (env.getenv variable)) in
      let missing = keep (λ name. not (env.is_file model_dir name)) (tokenizer_names e) in
      if variable == ""
      then unavailable "engine has no model_dir_env"
      else if model_dir == ""
      then unavailable (variable <> " is unset")
      else if not (env.is_dir model_dir)
      then unavailable (variable <> " is not a directory")
      else elim missing [
        | [] ↦ record { available = true; reason = "configured" }
        | m ∷ ms ↦ unavailable (variable <> " missing " <> join ", " (m ∷ ms))
      ]

  unfoldable pub candidate_base : String → Engine → Candidate
  candidate_base id e =
      let variable = or_empty e.model_dir_env in
      record {
        id = id;
        registered = true;
        eligible = false;
        selected = false;
        reason = "not evaluated";
        details = some (record {
          license = e.license;
          quality_class = e.quality_class;
          provider_retention_class = e.provider_retention_class;
        });
        model_dir_env = or_none variable;
        model_dir_configured = not (variable == "") && not (or_empty (env.getenv variable) == "");
      }

  module _ (registry : Dict String Engine) (policy : EngineRoutingPolicy)
      (source target : String) where
    abbrev pub unregistered : String → Candidate
    unregistered id = record {
      id = id;
      registered = false;
      eligible = false;
      selected = false;
      reason = "not registered";
      details = none;
      model_dir_env = none;
      model_dir_configured = false;
    }

    -- What an eligible candidate becomes, and the selection after it.
    abbrev pub take_place : Candidate → Option String → Candidate × Option String
    take_place c none =
        (record c { eligible = true; selected = true; reason = "selected" }, some c.id)
    take_place c (some s) =
        (record c { eligible = true; reason = "eligible but lower priority" }, some s)

    -- One turn of the loop of `diagnose_auto_route`.
    unfoldable pub consider : String → Option String → Candidate × Option String
    consider id selected = elim (Dict.lookup id registry) [
      | none ↦ (unregistered id, selected)
      | some e ↦
          let c = candidate_base id e in
          let availability = engine_availability e in
          if not (supports_pair e source target)
          then (record c { reason = "does not support " <> source <> "->" <> target }, selected)
          else if is_nc_licensed e && not policy.allow_nc_licensed
          then (record c { reason = "NC license blocked" }, selected)
          else if not availability.available
          then (record c { reason = availability.reason }, selected)
          else take_place c selected
    ]

    unfoldable pub consider_all : List String → Option String → List Candidate × Option String
    consider_all [] selected = ([], selected)
    consider_all (id ∷ ids) selected =
        let (c, selected') = consider id selected in
        let (cs, last) = consider_all ids selected' in (c ∷ cs, last)

    unfoldable pub diagnose_auto_route : Diagnostics
    diagnose_auto_route =
        let (candidates, selected) = consider_all (ordered_auto_engine_ids policy) none in
        if source == target
        then record {
          source_language = source;
          target_language = target;
          allow_nc_licensed = policy.allow_nc_licensed;
          selected_provider_id = some "passthrough";
          candidates =
              record {
                id = "passthrough";
                registered = true;
                eligible = true;
                selected = true;
                reason = "same-language passthrough";
                details = none;
                model_dir_env = none;
                model_dir_configured = false;
              }
              ∷ [];
        }
        else record {
          source_language = source;
          target_language = target;
          allow_nc_licensed = policy.allow_nc_licensed;
          selected_provider_id = selected;
          candidates = candidates;
        }

    unfoldable pub select_auto_provider_id : Result RoutingError String
    select_auto_provider_id =
        let d = diagnose_auto_route in
        text_or d.selected_provider_id ok
          (err (routing_error (auto_route_unavailable_message source target d) d))

    unfoldable pub resolve_provider_id : String → Result RoutingError String
    resolve_provider_id provider_id =
        if provider_id == auto_provider_id then select_auto_provider_id else ok provider_id
