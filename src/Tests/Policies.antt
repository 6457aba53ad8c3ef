-- ===== src/Tests/Policies.antt =====
-- edc_translation/governance.py at concrete inputs.
use edctranslation_public.Prelude.{String, ◌≡◌, refl, ◌==◌, string_eq, if◌then◌else◌, [], ◌∷◌}
use edctranslation_public.Prelude.Dict
use edctranslation_public.Json.{text, Payload}
use edctranslation_public.Governance.{
  update_policy, initial_policies, set_policy, get_policy, policy_of, apply_updates, policy_to_dict,
}
use edctranslation_public.Governance.Laws.{effective, changed_policy, effective-update_policy}

abbrev tenant : String
tenant = "acme"

abbrev updates : Payload
updates =
    ("tenant_id", text "other")
    ∷ ("retention_policy", text "encrypted_volume")
    ∷ ("unknown", text "1")
    ∷ ("retention_policy", text "none")
    ∷ []

retention :
    (effective tenant (update_policy tenant updates initial_policies).1).retention_policy
    ≡ text "none"
unfolding update_policy string_eq Dict.lookup set_policy Dict.insert get_policy policy_of
    apply_updates policy_to_dict
retention = refl

effective-update_policy_example :
    effective tenant (update_policy tenant updates initial_policies).1 ≡ (
      if tenant == tenant
      then changed_policy tenant updates (effective tenant initial_policies)
      else effective tenant initial_policies)
effective-update_policy_example = effective-update_policy tenant tenant updates initial_policies
