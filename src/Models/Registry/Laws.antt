-- ===== src/Models/Registry/Laws.antt =====
-- What an approved model bundle has, and statuses read back from their dicts.
use edctranslation_public.Prelude.{
  String, ◌≡◌, refl, ap, Bool, true, false, Option, none, some, List, [], ◌∷◌, ◌++◌, ◌==◌, contains,
  string_eq, Bool-cases, Option-cases, inl, inr,
}
use edctranslation_public.Prelude.Dict
use edctranslation_public.Prelude.Errors.{Result, ok, Result-cases}
use edctranslation_public.Json.{
  Value, null, flag, whole, float, text, list, dict, Fields, Payload, entries, entries-fields,
  items, Runtime, str, iterate, truthy,
}
use edctranslation_public.Auth.{Texts}
use edctranslation_public.Auth.Store.Laws.{elements-items}
use edctranslation_public.Models.Provenance.{
  ModelProvenance, ModelDirectory, validate_model_provenance, load_model_provenance_from_dir,
}
use edctranslation_public.Models.Provenance.Laws.{
  IsGenuine, Shows, normalize_model_provenance-IsGenuine,
}
use edctranslation_public.Models.Registry.{
  ModelBundleStatus, to_dict, from_dict, optional_text, optional_dict, dict_or_none, optional_str,
  list_or_empty, Statuses, BundleOptions, error_text, required_files, missing_files, is_empty,
  examine, status_of, validate_bundle, get,
}

module _ (py : Runtime) where
  optional_str-optional_text : (o : Option String) → optional_str py (optional_text o) ≡ o
  unfolding optional_str str
  optional_str-optional_text none = refl
  optional_str-optional_text (some s) = refl

  dict_or_none-optional_dict : (o : Option Payload) → dict_or_none (optional_dict o) ≡ o
  unfolding dict_or_none
  dict_or_none-optional_dict none = refl
  dict_or_none-optional_dict (some d) = ap some (entries-fields d)

  list_or_empty-items : (vs : List Value) → list_or_empty py (list (items vs)) ≡ ok vs
  unfolding list_or_empty truthy iterate
  list_or_empty-items [] = refl
  list_or_empty-items (v ∷ vs) = ap (λ us. ok (v ∷ us)) (elements-items vs)

  -- A status that has a time reads back from its dict as itself.
  pub from_dict-to_dict_status :
      (now : String) (s : ModelBundleStatus)
      → (s.updated_at == "") ≡ false
      → from_dict py now (to_dict s) ≡ ok s
  unfolding from_dict to_dict truthy str Dict.lookup string_eq
  from_dict-to_dict_status now s h =
      rw
        (
          list_or_empty-items s.errors,
          dict_or_none-optional_dict s.provenance,
          optional_str-optional_text s.engine_family,
          optional_str-optional_text s.license,
          optional_str-optional_text s.vram_profile,
          optional_str-optional_text s.cache_location,
          optional_str-optional_text s.quality_evidence_ref,
          h,
        )
        refl

module _ (py : Runtime) (library : Texts) (is_base16 : String → Bool)
    (parse : String → Result String Value) where
  -- The directory has a provenance file, which is a JSON object, and the record that its entries
  -- validate to is genuine and shown in the dict.
  abbrev pub FromFile : ModelDirectory library is_base16 → Bool → Payload → Type 0
  FromFile directory enforce d =
      (content : String) × (directory.provenance_text ≡ some content)
      × (fs : Fields) × (parse content ≡ ok (dict fs))
      × (p : ModelProvenance) × (validate_model_provenance library is_base16 (entries fs) enforce
            false
          ≡ ok p)
      × IsGenuine library is_base16 p
      × Shows library is_base16 p d

  load-FromFile :
      (directory : ModelDirectory library is_base16) (enforce : Bool) (d : Payload)
      → load_model_provenance_from_dir library is_base16 parse directory enforce false ≡ ok d
      → FromFile directory enforce d
  unfolding load_model_provenance_from_dir
  load-FromFile directory enforce d h = elim (Option-cases directory.provenance_text) [
    | inl n ↦ absurd (cc (rw (n, load_model_provenance_from_dir) at h))
    | inr (content, s) ↦ elim (Result-cases (parse content)) [
      | inr (message, f) ↦ absurd (cc (rw (s, f, load_model_provenance_from_dir) at h))
      | inl (dict fs, f) ↦
          let (p, v, genuine, shows) =
            normalize_model_provenance-IsGenuine library is_base16 (entries fs) enforce d
              (rw (s, f, load_model_provenance_from_dir) at h) in
          (content, s, fs, f, p, v, genuine, shows)
      | inl (null, f) ↦ absurd (cc (rw (s, f, load_model_provenance_from_dir) at h))
      | inl (flag b, f) ↦ absurd (cc (rw (s, f, load_model_provenance_from_dir) at h))
      | inl (whole n, f) ↦ absurd (cc (rw (s, f, load_model_provenance_from_dir) at h))
      | inl (float n, f) ↦ absurd (cc (rw (s, f, load_model_provenance_from_dir) at h))
      | inl (text t, f) ↦ absurd (cc (rw (s, f, load_model_provenance_from_dir) at h))
      | inl (list vs, f) ↦ absurd (cc (rw (s, f, load_model_provenance_from_dir) at h))
    ]
  ]

  append-empty : (xs : List String) (x : String) → is_empty (xs ++ x ∷ []) ≡ false
  append-empty [] x = refl
  append-empty (y ∷ xs) x = refl

  missing_files-empty :
      (files : List String)
      → is_empty (missing_files files required_files) ≡ true
      → (contains files "source.spm" ≡ true) × (contains files "target.spm" ≡ true)
  missing_files-empty files h = elim (Bool-cases (contains files "source.spm")) [
    | inr n ↦ absurd (cc (rw n at h))
    | inl y ↦ elim (Bool-cases (contains files "target.spm")) [
      | inr m ↦ absurd (cc (rw (y, m) at h))
      | inl z ↦ (y, z)
    ]
  ]

  -- What a bundle without errors has.
  abbrev pub IsComplete : ModelDirectory library is_base16 → Bool → Option Payload → Type 0
  IsComplete directory enforce provenance =
      (directory.is_directory ≡ true)
      × (contains directory.files "source.spm" ≡ true)
      × (contains directory.files "target.spm" ≡ true)
      × (d : Payload) × (provenance ≡ some d)
      × FromFile directory enforce d

  examine-IsComplete :
      (directory : ModelDirectory library is_base16) (enforce : Bool)
      → is_empty (examine py library is_base16 parse directory enforce).0 ≡ true
      → IsComplete directory enforce (examine py library is_base16 parse directory enforce).1
  unfolding examine load_model_provenance_from_dir
  examine-IsComplete directory enforce h = elim (Bool-cases directory.is_directory) [
    | inr n ↦ absurd (cc (rw (n, examine) at h))
    | inl y ↦
        elim (Result-cases
          (load_model_provenance_from_dir library is_base16 parse directory enforce false)) [
            | inr (e, l) ↦ absurd (
                cc (
                  append-empty (missing_files directory.files required_files) (error_text e),
                  rw (y, l, examine) at h,
                ))
            | inl (d, l) ↦
                let (source, target) =
                  missing_files-empty directory.files (rw (y, l, examine) at h) in
                (y, source, target, d, rw (y, l, examine) refl, load-FromFile directory enforce d l)
          ]
  ]

  -- A bundle is approved only with supply-chain enforcement, if its directory has both vocabulary
  -- files and a provenance file, a JSON object that validates to a record, which the status shows and
  -- which has a digest of the weights, a license, a runtime
  -- version, a provenance URI, and attestations that are digests or the word `unverified`, where a
  -- digest is a text of 64 characters that reads as a number in base 16; the registry then shows
  -- this status under its id.
  pub validate_bundle-IsComplete :
      (directory : ModelDirectory library is_base16) (options : BundleOptions) (now : String)
      (statuses : Statuses)
      → (validate_bundle py library is_base16 parse directory options now statuses).0.approved
        ≡ true
      → (let (status, statuses') =
            validate_bundle py library is_base16 parse directory options now statuses in
          (options.enforce_supply_chain ≡ true)
          × IsComplete directory options.enforce_supply_chain status.provenance
          × (get status.model_id statuses' ≡ ok status))
  unfolding validate_bundle status_of get
  validate_bundle-IsComplete directory options now statuses h =
      elim (Bool-cases
        (is_empty (examine py library is_base16 parse directory options.enforce_supply_chain).0)) [
          | inr n ↦ absurd (cc (rw n at h))
          | inl y ↦ (
            rw y at h,
            examine-IsComplete directory options.enforce_supply_chain y,
            rw (Dict.lookup-insert_self, get) refl,
          )
        ]
