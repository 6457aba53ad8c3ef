-- ===== src/Routing/Resolution.antt =====
-- What `resolve_provider_id` answers.
use edctranslation_public.Prelude.{
  String, ◌≡◌, ◌≢◌, Bool, true, false, Option, none, some, List, [], ◌∷◌, ◌==◌, string_eq, All,
  Bool-cases, Option-cases, inl, inr, arith,
}
use edctranslation_public.Prelude.Dict
use edctranslation_public.Prelude.Dict.{Dict}
use edctranslation_public.Prelude.Errors.{Result, ok, err}
use edctranslation_public.Routing.{
  Engine, Environment, EngineRoutingPolicy, RoutingError, member, ordered_auto_engine_ids,
  auto_provider_id, select_auto_provider_id, resolve_provider_id,
}
use edctranslation_public.Routing.Choice.{may_serve, first_of, diagnose-selects}

not_empty : (id : String) → id ≢ "" → (id == "") ≡ false
not_empty id n = ground (arith, n)

module _ (env : Environment) (registry : Dict String Engine) (policy : EngineRoutingPolicy)
    (source target : String) where
  abbrev serves : String → Bool
  serves = may_serve env registry policy source target

  abbrev first : List String → Option String
  first = first_of env registry policy source target

  first-some :
      (ids : List String) (id : String)
      → first ids ≡ some id
      → (serves id ≡ true) × (member id ids ≡ true)
  first-some [] id h = absurd (cc h)
  first-some (x ∷ ids) id h = elim (Bool-cases (serves x)) [
    | inl y ↦ let e : some x ≡ some id = rw y at h in (cc (e, y), ground (arith, e))
    | inr n ↦ let (s, m) = first-some ids id (rw n at h) in (s, ground (arith, m))
  ]

  first-none : (ids : List String) → first ids ≡ none → All (λ id. serves id ≡ false) ids
  first-none [] h = tt
  first-none (x ∷ ids) h = elim (Bool-cases (serves x)) [
    | inl y ↦ absurd (cc (rw y at h))
    | inr n ↦ (n, first-none ids (rw n at h))
  ]

  unnamed_lem : Dict.lookup "" registry ≡ none → serves "" ≡ false
  unnamed_lem h = ground (arith, h)

  -- The answer to a request for "auto".
  abbrev pub Resolved : List String → Result RoutingError String → Type 0
  Resolved ids (ok id) = (serves id ≡ true) × (member id ids ≡ true)
  Resolved ids (err e) = All (λ id. serves id ≡ false) ids

  -- Where no engine is registered under the empty id and the languages differ, a request for "auto"
  -- is answered with an engine of the ordered ids that may serve it, and is refused only where none
  -- of them may.
  pub resolve_provider_id-Resolved :
      Dict.lookup "" registry ≡ none
      → (source == target) ≡ false
      → Resolved
          (ordered_auto_engine_ids policy)
          (resolve_provider_id env registry policy source target auto_provider_id)
  unfolding resolve_provider_id select_auto_provider_id string_eq
  resolve_provider_id-Resolved unnamed differ =
      let ids = ordered_auto_engine_ids policy in
      let selected = (diagnose-selects env registry policy source target differ).0 in
      elim (Option-cases (first ids)) [
        | inl h ↦ rw (selected, h, select_auto_provider_id) (first-none ids h)
        | inr (id, h) ↦
            let (s, m) = first-some ids id h in
            elim (string_eq.dec id "") [
              | yes e ↦ absurd (cc (unnamed_lem unnamed, s, e))
              | no n ↦ rw (selected, h, select_auto_provider_id) (rw (not_empty id n) (s, m))
            ]
      ]
