-- ===== src/Models/Provenance/Laws.antt =====
-- What a provenance record that was accepted for loaded weights holds.
use mathlib.Core.Path.{subst}
use edctranslation_public.Prelude.{
  String, ◌≡◌, ◌≢◌, refl, sym, ◌∙◌, Bool, true, false, some, ◌==◌, contains, string_eq, nat_eq,
  Bool-cases, ◌⊎◌, inl, inr, ==_iff, not, ◌&&◌,
}
use edctranslation_public.Prelude.Dict
use edctranslation_public.Prelude.Errors.{ok, guard, bind-ok, ok-injective}
use edctranslation_public.Json.{Value, null, flag, whole, float, text, list, dict, Payload}
use edctranslation_public.Auth.{Texts}
use edctranslation_public.Auth.Text.{size}
use edctranslation_public.Models.Provenance.{
  ModelProvenance, unloaded_weight_sentinels, unverified, required_string_value, required_string,
  normalize_sha256, normalize_weights_sha256, normalize_optional_sha256, validate_model_provenance,
  updated, normalize_model_provenance, supply_value, missing_fields, is_nonempty, lacks_fields,
}

module _ (library : Texts) (is_base16 : String → Bool) where
  -- 64 characters that are a number in base 16.
  abbrev pub IsDigest : String → Type 0
  IsDigest s = (size s ≡ 64) × (is_base16 s ≡ true)

  normalize_sha256-IsDigest :
      (field s w : String) → normalize_sha256 library is_base16 field s ≡ ok w → IsDigest w
  unfolding normalize_sha256
  normalize_sha256-IsDigest field s w h = elim (Bool-cases (size s == 64)) [
    | inr n ↦ absurd (cc (rw (n, normalize_sha256) at h))
    | inl y ↦ elim (Bool-cases (is_base16 s)) [
      | inr n ↦ absurd (cc (rw (y, n, normalize_sha256) at h))
      | inl z ↦
          let same : s ≡ w = cc (rw (y, z, normalize_sha256) at h) in
          rw (sym same) ((==_iff (size s) 64).0 y, z)
    ]
  ]

  normalize_weights_sha256-IsDigest :
      (s w : String) → normalize_weights_sha256 library is_base16 s false ≡ ok w → IsDigest w
  unfolding normalize_weights_sha256
  normalize_weights_sha256-IsDigest s w h =
      elim (Bool-cases (contains unloaded_weight_sentinels (library.lower (library.strip s)))) [
        | inl y ↦ absurd (cc (rw (y, normalize_weights_sha256) at h))
        | inr n ↦
            normalize_sha256-IsDigest "weights_sha256" _ w (rw (n, normalize_weights_sha256) at h)
      ]

  abbrev pub IsAttestation : String → Type 0
  IsAttestation s = (s ≡ unverified) ⊎ IsDigest s

  normalize_optional_sha256-IsAttestation :
      (field : String) (v : Value) (w : String)
      → normalize_optional_sha256 library is_base16 field v ≡ ok w
      → IsAttestation w
  unfolding normalize_optional_sha256
  normalize_optional_sha256-IsAttestation field v w h =
      let (required, p, k) = bind-ok (required_string_value library is_base16 field v) _ w h in
      elim (Bool-cases (library.lower required == unverified)) [
        | inl y ↦
            let same : library.lower required ≡ w = cc (rw y at k) in
            inl (rw (sym same) ((==_iff (library.lower required) unverified).0 y))
        | inr n ↦ inr (normalize_sha256-IsDigest field _ w (rw n at k))
      ]

  required_string_value-nonempty :
      (field : String) (v : Value) (w : String)
      → required_string_value library is_base16 field v ≡ ok w
      → w ≢ ""
  unfolding required_string_value
  required_string_value-nonempty field (text s) w h e = elim (Bool-cases (library.strip s == "")) [
    | inl y ↦ absurd (cc (rw (y, required_string_value) at h))
    | inr n ↦
        let same : library.strip s ≡ w = cc (rw (n, required_string_value) at h) in
        absurd (cc (n, (==_iff (library.strip s) "").1 (same ∙ e)))
  ]
  required_string_value-nonempty field null w h e = absurd (cc h)
  required_string_value-nonempty field (flag b) w h e = absurd (cc h)
  required_string_value-nonempty field (whole n) w h e = absurd (cc h)
  required_string_value-nonempty field (float n) w h e = absurd (cc h)
  required_string_value-nonempty field (list vs) w h e = absurd (cc h)
  required_string_value-nonempty field (dict fs) w h e = absurd (cc h)

  -- The record of a model whose weights are there.
  abbrev pub IsGenuine : ModelProvenance → Type 0
  IsGenuine p =
      IsDigest p.weights_sha256
      × (p.license ≢ "")
      × (p.runtime_version ≢ "")
      × (p.slsa_provenance_uri ≢ "")
      × IsAttestation p.intoto_attestation_sha256
      × IsAttestation p.sbom_sha256

  pub validate_model_provenance-IsGenuine :
      (provenance : Payload) (enforce : Bool) (p : ModelProvenance)
      → validate_model_provenance library is_base16 provenance enforce false ≡ ok p
      → IsGenuine p
  unfolding validate_model_provenance required_string
  validate_model_provenance-IsGenuine provenance enforce p h =
      let (weights, w, h1) =
        bind-ok (required_string library is_base16 "weights_sha256" provenance) _ p h in
      let (license, l, h2) =
        bind-ok (required_string library is_base16 "license" provenance) _ p h1 in
      let (version, v, h3) =
        bind-ok (required_string library is_base16 "runtime_version" provenance) _ p h2 in
      let (digest, d, h4) =
        bind-ok (normalize_weights_sha256 library is_base16 weights false) _ p h3 in
      let (u, g, h5) =
        bind-ok
          (guard
            (not (
              is_nonempty library is_base16 (missing_fields library is_base16 provenance)
              && enforce))
            (lacks_fields library is_base16 (missing_fields library is_base16 provenance)))
          _ p h4 in
      let (slsa, s, h6) =
        bind-ok
          (required_string_value library is_base16 "slsa_provenance_uri"
            (supply_value library is_base16 provenance "slsa_provenance_uri"))
          _ p h5 in
      let (intoto, i, h7) =
        bind-ok
          (normalize_optional_sha256 library is_base16 "intoto_attestation_sha256"
            (supply_value library is_base16 provenance "intoto_attestation_sha256"))
          _ p h6 in
      let (sbom, b, h8) =
        bind-ok
          (normalize_optional_sha256 library is_base16 "sbom_sha256"
            (supply_value library is_base16 provenance "sbom_sha256"))
          _ p h7 in
      subst IsGenuine (ok-injective _ p h8) (
        normalize_weights_sha256-IsDigest weights digest d,
        required_string_value-nonempty "license" _ license l,
        required_string_value-nonempty "runtime_version" _ version v,
        required_string_value-nonempty "slsa_provenance_uri" _ slsa s,
        normalize_optional_sha256-IsAttestation "intoto_attestation_sha256" _ intoto i,
        normalize_optional_sha256-IsAttestation "sbom_sha256" _ sbom b,
      )

  -- The dict that `normalize_model_provenance` gives shows a genuine record under its six keys.
  abbrev pub Shows : ModelProvenance → Payload → Type 0
  Shows p d =
      (Dict.lookup "weights_sha256" d ≡ some (text p.weights_sha256))
      × (Dict.lookup "license" d ≡ some (text p.license))
      × (Dict.lookup "runtime_version" d ≡ some (text p.runtime_version))
      × (Dict.lookup "slsa_provenance_uri" d ≡ some (text p.slsa_provenance_uri))
      × (Dict.lookup "intoto_attestation_sha256" d ≡ some (text p.intoto_attestation_sha256))
      × (Dict.lookup "sbom_sha256" d ≡ some (text p.sbom_sha256))

  updated-Shows : (p : ModelProvenance) (d : Payload) → Shows p (updated library is_base16 p d)
  unfolding updated string_eq
  updated-Shows p d = (
    rw (Dict.lookup-insert, Dict.lookup-insert, Dict.lookup-insert) refl,
    rw (Dict.lookup-insert, Dict.lookup-insert) refl,
    rw Dict.lookup-insert refl,
    rw
        (
          Dict.lookup-insert, Dict.lookup-insert, Dict.lookup-insert, Dict.lookup-insert,
          Dict.lookup-insert, Dict.lookup-insert,
        )
        refl,
    rw
        (
          Dict.lookup-insert, Dict.lookup-insert, Dict.lookup-insert, Dict.lookup-insert,
          Dict.lookup-insert,
        )
        refl,
    rw (Dict.lookup-insert, Dict.lookup-insert, Dict.lookup-insert, Dict.lookup-insert) refl,
  )

  pub normalize_model_provenance-IsGenuine :
      (provenance : Payload) (enforce : Bool) (d : Payload)
      → normalize_model_provenance library is_base16 provenance enforce false ≡ ok d
      → (p : ModelProvenance) × (validate_model_provenance library is_base16 provenance enforce
            false
          ≡ ok p)
        × IsGenuine p
        × Shows p d
  unfolding normalize_model_provenance
  normalize_model_provenance-IsGenuine provenance enforce d h =
      let (p, v, k) =
        bind-ok (validate_model_provenance library is_base16 provenance enforce false) _ d h in
      (
        p,
        v,
        validate_model_provenance-IsGenuine provenance enforce p v,
        subst (Shows p) (ok-injective _ d k) (updated-Shows p provenance),
      )
