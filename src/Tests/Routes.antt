-- ===== src/Tests/Routes.antt =====
-- Runs of the automatic routing of edc_translation/routing.py.
use edctranslation_public.Prelude.{
  String, ◌≡◌, refl, true, false, none, some, [], ◌∷◌, ◌++◌, map, ◌==◌, string_eq,
}
use edctranslation_public.Prelude.Dict
use edctranslation_public.Prelude.Dict.{Dict}
use edctranslation_public.Routing.{
  Engine, Environment, EngineRoutingPolicy, Candidate, member, ordered_auto_engine_ids,
  default_auto_engine_ids, auto_provider_id, diagnose_auto_route, resolve_provider_id,
}
use edctranslation_public.Routing.Choice.{
  may_serve, first_of, ids_of, marked, listed, distinct, IsDistinct, diagnose-selects,
}
use edctranslation_public.Routing.Resolution.{Resolved, resolve_provider_id-Resolved}

abbrev env : Environment
env = record {
  getenv = λ name. some "/models";
  is_dir = λ name. true;
  is_file = λ dir name. true;
  strip = λ s. s;
  lower = λ s. s;
}

abbrev opus : Engine
opus = record {
  license = "apache-2.0";
  quality_class = "standard";
  provider_retention_class = "local";
  supports_pairs = some (("en", "fr") ∷ []);
  model_dir_env = some "OPUS_DIR";
  tokenizer_files = none;
}

abbrev registry : Dict String Engine
registry = ("local_ct2_opus", opus) ∷ []

abbrev policy : EngineRoutingPolicy
policy = record { allow_nc_licensed = false; preferred_engine_ids = "local_ct2_nllb" ∷ [] }

abbrev en : String
en = "en"

abbrev fr : String
fr = "fr"

differ : (en == fr) ≡ false
unfolding string_eq
differ = refl

diagnose-selects_example :
    let d = diagnose_auto_route env registry policy en fr in
    let ids = ordered_auto_engine_ids policy in
    (d.selected_provider_id ≡ first_of env registry policy en fr ids)
    × (ids_of env registry policy en fr d.candidates ≡ ids)
    × (map (λ (c : Candidate). c.eligible) d.candidates
        ≡ map (may_serve env registry policy en fr) ids)
    × (marked env registry policy en fr d.candidates
        ≡ listed env registry policy en fr d.selected_provider_id)
    × (ids ≡ distinct (policy.preferred_engine_ids ++ default_auto_engine_ids))
    × IsDistinct ids
    × ((id : String)
        → member id ids ≡ member id (policy.preferred_engine_ids ++ default_auto_engine_ids))
diagnose-selects_example = diagnose-selects env registry policy en fr differ

unnamed : Dict.lookup "" registry ≡ none
unfolding Dict.lookup string_eq
unnamed = refl

resolve_provider_id-Resolved_example :
    Resolved env registry policy en fr
      (ordered_auto_engine_ids policy)
      (resolve_provider_id env registry policy en fr auto_provider_id)
resolve_provider_id-Resolved_example =
    resolve_provider_id-Resolved env registry policy en fr unnamed differ
