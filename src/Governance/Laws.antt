-- ===== src/Governance/Laws.antt =====
-- What a change of a tenant's policy reaches, and what it leaves.
use edctranslation_public.Prelude.{
  String, ◌≡◌, refl, ap, sym, ◌∙◌, true, false, ◌&&◌, none, some, List, [], ◌∷◌, ◌==◌, contains,
  string_eq, not, if◌then◌else◌, Bool-cases, Option-cases, inl, inr, ==_iff,
}
use edctranslation_public.Prelude.Dict
use edctranslation_public.Json.{Value, null, Payload, get_or}
use edctranslation_public.Governance.{
  TenantPolicy, default_policy, policy_to_dict, policy_of, Policies, get_policy, set_policy,
  apply_updates, update_policy,
}

-- The policy of a tenant, stored or not yet.
abbrev pub effective : String → Policies → TenantPolicy
effective id policies = elim (Dict.lookup id policies) [ none ↦ default_policy id | some p ↦ p ]

effective-found :
    (id : String) (policies : Policies) (p : TenantPolicy)
    → Dict.lookup id policies ≡ some p
    → effective id policies ≡ p
effective-found id policies p f = rw (effective, f) refl

effective-missing :
    (id : String) (policies : Policies)
    → Dict.lookup id policies ≡ none
    → effective id policies ≡ default_policy id
effective-missing id policies n = rw (effective, n) refl

get_policy-effective :
    (id : String) (policies : Policies) → (get_policy id policies).0 ≡ effective id policies
unfolding get_policy
get_policy-effective id policies = elim (Option-cases (Dict.lookup id policies)) [
  | inl n ↦ rw (n, get_policy) (sym (effective-missing id policies n))
  | inr (p, f) ↦ rw (f, get_policy) (sym (effective-found id policies p f))
]

effective-insert :
    (j id : String) (p : TenantPolicy) (policies : Policies)
    → effective j (Dict.insert id p policies) ≡ (if j == id then p else effective j policies)
effective-insert j id p policies = elim (Bool-cases (j == id)) [
  | inl y ↦ rw (y) (
      effective-found j (Dict.insert id p policies) p
        (Dict.lookup-insert j id p policies ∙ rw (y) refl))
  | inr n ↦ rw (n) (rw (effective, Dict.lookup-insert j id p policies, n) refl)
]

effective-get_policy :
    (id j : String) (policies : Policies)
    → effective j (get_policy id policies).1 ≡ effective j policies
unfolding get_policy
effective-get_policy id j policies = elim (Option-cases (Dict.lookup id policies)) [
  | inr (p, f) ↦ rw (f, get_policy) refl
  | inl n ↦
      rw (n, get_policy, effective-insert j id (default_policy id) policies)
        (elim (Bool-cases (j == id)) [
          | inl y ↦ rw (y, (==_iff j id).0 y) (rw (effective, n) refl)
          | inr d ↦ rw (d) refl
        ])
]

-- The value that the last change of a field gives it.
abbrev pub last_value : String → Payload → Value → Value
last_value key [] value = value
last_value key ((k, v) ∷ updates) value = last_value key updates (if key == k then v else value)

get_or-insert :
    (key k : String) (v default : Value) (payload : Payload)
    → get_or (Dict.insert k v payload) key default
      ≡ (if key == k then v else get_or payload key default)
get_or-insert key k v default payload = elim (Bool-cases (key == k)) [
  | inl y ↦ rw (y) (rw (get_or, Dict.lookup-insert key k v payload, y) refl)
  | inr n ↦ rw (n) (rw (get_or, Dict.lookup-insert key k v payload, n) refl)
]

-- A name that is not to be changed is not the name of a field that is.
skipped-other :
    (allowed : List String) (key k : String)
    → contains allowed key ≡ true
    → (key == "tenant_id") ≡ false
    → (contains allowed k && not (k == "tenant_id")) ≡ false
    → (key == k) ≡ false
skipped-other allowed key k c n f = elim (Bool-cases (key == k)) [
  | inr d ↦ d
  | inl y ↦ let same : k ≡ key = sym ((==_iff key k).0 y) in absurd (cc (rw (same, c, n) at f))
]

get_or-step :
    (allowed : List String) (payload : Payload) (key k : String) (v default : Value)
    → contains allowed key ≡ true
    → (key == "tenant_id") ≡ false
    → get_or
        (if contains allowed k && not (k == "tenant_id") then Dict.insert k v payload else payload)
        key
        default
      ≡ (if key == k then v else get_or payload key default)
get_or-step allowed payload key k v default c n =
    elim (Bool-cases (contains allowed k && not (k == "tenant_id"))) [
      | inl t ↦ rw (t) (get_or-insert key k v default payload)
      | inr f ↦ rw (f, skipped-other allowed key k c n f) refl
    ]

get_or-apply_updates :
    (allowed : List String) (updates payload : Payload) (key : String) (default : Value)
    → contains allowed key ≡ true
    → (key == "tenant_id") ≡ false
    → get_or (apply_updates allowed updates payload) key default
      ≡ last_value key updates (get_or payload key default)
unfolding apply_updates
get_or-apply_updates allowed [] payload key default c n = refl
get_or-apply_updates allowed ((k, v) ∷ updates) payload key default c n =
    get_or-apply_updates allowed updates _ key default c n
    ∙ ap (last_value key updates) (get_or-step allowed payload key k v default c n)

-- Every field but the tenant takes the last value that the changes give it.
abbrev pub changed_policy : String → Payload → TenantPolicy → TenantPolicy
changed_policy tenant_id updates p = record {
  tenant_id = tenant_id;
  default_provider_id = last_value "default_provider_id" updates p.default_provider_id;
  allow_nc_licensed = last_value "allow_nc_licensed" updates p.allow_nc_licensed;
  allowed_provider_families =
      last_value "allowed_provider_families" updates p.allowed_provider_families;
  blocked_provider_families =
      last_value "blocked_provider_families" updates p.blocked_provider_families;
  approved_instruction_set_ids =
      last_value "approved_instruction_set_ids" updates p.approved_instruction_set_ids;
  glossary_ids = last_value "glossary_ids" updates p.glossary_ids;
  cloud_residency_evidence_required =
      last_value "cloud_residency_evidence_required" updates p.cloud_residency_evidence_required;
  retention_policy = last_value "retention_policy" updates p.retention_policy;
}

policy_of-apply_updates :
    (id : String) (updates : Payload) (p : TenantPolicy)
    → policy_of id (apply_updates (Dict.keys (policy_to_dict p)) updates (policy_to_dict p))
      ≡ changed_policy id updates p
unfolding policy_of policy_to_dict Dict.lookup string_eq
policy_of-apply_updates id updates p =
    rw
      (
        get_or-apply_updates _ updates (policy_to_dict p) "default_provider_id" null refl refl,
        get_or-apply_updates _ updates (policy_to_dict p) "allow_nc_licensed" null refl refl,
        get_or-apply_updates _ updates (policy_to_dict p) "allowed_provider_families" null refl
            refl,
        get_or-apply_updates _ updates (policy_to_dict p) "blocked_provider_families" null refl
            refl,
        get_or-apply_updates _ updates (policy_to_dict p) "approved_instruction_set_ids" null refl
            refl,
        get_or-apply_updates _ updates (policy_to_dict p) "glossary_ids" null refl refl,
        get_or-apply_updates _ updates (policy_to_dict p) "cloud_residency_evidence_required" null
            refl refl,
        get_or-apply_updates _ updates (policy_to_dict p) "retention_policy" null refl refl,
      )
      refl

-- `update` gives each field of the tenant's policy, stored or default, the last value that the
-- changes name for it, but keeps the tenant; unknown names change nothing, and the policy of every
-- other tenant stays.
pub effective-update_policy :
    (id j : String) (updates : Payload) (policies : Policies)
    → effective j (update_policy id updates policies).1 ≡ (
        if j == id then changed_policy id updates (effective id policies) else effective j policies)
unfolding update_policy set_policy policy_of
effective-update_policy id j updates policies =
    effective-insert j id
      (policy_of id (
        apply_updates (Dict.keys (policy_to_dict (get_policy id policies).0)) updates
          (policy_to_dict (get_policy id policies).0)))
      (get_policy id policies).1
    ∙ rw
        (
          get_policy-effective id policies,
          policy_of-apply_updates id updates (effective id policies),
          effective-get_policy id j policies,
        )
        refl
