-- ===== src/Auth/Store/Laws.antt =====
-- The file of the token store stands for a list of records and a list of events, and the methods
-- act on those.
use edctranslation_public.Prelude.{
  String, ◌≡◌, refl, ap, Option, none, List, [], ◌∷◌, ◌++◌, map, keep, All, All-append, ◌==◌,
  string_eq, nat_eq, not, if◌then◌else◌, arith, Bool-cases, inl, inr,
}
use edctranslation_public.Prelude.Dict
use edctranslation_public.Prelude.Errors.{ok}
use edctranslation_public.Json.{Value, Runtime, iterate, items, elements, str, get}
use edctranslation_public.Json.Sorting.{
  sort_keys, insert_field, sorted_keys, sort_keys-sort_keys, sort_items-items,
}
use edctranslation_public.Jobs.Files.{Codec}
use edctranslation_public.Auth.{Texts}
use edctranslation_public.Auth.Sets.{IsFrozenset}
use edctranslation_public.Auth.Hashing.{Crypto}
use edctranslation_public.Auth.Tokens.{ApiTokenRecord, AuditEvent, to_dict}
use edctranslation_public.Auth.Tokens.Laws.{
  from_dict-to_dict, read_event, event_from_dict-event_to_dict,
}
use edctranslation_public.Auth.Store.{
  Document, token_value, event_value, File, load, save, records_of, events_of, without, save_token,
  list_tokens, record_audit_event, list_audit_events, get_token, find_token, is_asked,
  filter_events,
}

pub elements-items : (vs : List Value) → elements (items vs) ≡ vs
elements-items [] = refl
elements-items (v ∷ vs) = ap (◌∷◌ v) (elements-items vs)

abbrev pub HaveSets : List ApiTokenRecord → Type 0
HaveSets = All (λ r. IsFrozenset r.scopes)

abbrev pub stored_token : ApiTokenRecord → Value
stored_token r = sort_keys (token_value r)

abbrev pub stored_event : AuditEvent → Value
stored_event event = sort_keys (event_value event)

-- What a file with these tokens and events reads as: the dicts have their keys in order.
abbrev pub document : List ApiTokenRecord → List AuditEvent → Document
document rs es = record { tokens = map stored_token rs; audit_events = map stored_event es }

-- What a step writes that adds an event, the tokens as they were read or anew.
abbrev pub logged : List ApiTokenRecord → List AuditEvent → AuditEvent → Document
logged rs es event = record {
  tokens = map stored_token rs;
  audit_events = map stored_event es ++ event_value event ∷ [];
}

abbrev pub rewritten : List ApiTokenRecord → List AuditEvent → AuditEvent → Document
rewritten rs es event = record {
  tokens = map token_value rs;
  audit_events = map stored_event es ++ event_value event ∷ [];
}

-- What was sorted once is written as it is; a new value is sorted.
module _ {A : Type 0} (value : A → Value) where
  abbrev stored : List A → List Value
  stored = map (λ x. sort_keys (value x))

  sorted-stored : (xs : List A) → map sort_keys (stored xs) ≡ stored xs
  sorted-stored [] = refl
  sorted-stored (x ∷ xs) = rw (sort_keys-sort_keys (value x), sorted-stored xs) refl

  sorted-values : (xs : List A) → map sort_keys (map value xs) ≡ stored xs
  sorted-values [] = refl
  sorted-values (x ∷ xs) = ap (◌∷◌ (sort_keys (value x))) (sorted-values xs)

  sorted-append :
      (xs : List A) (x : A) → map sort_keys (stored xs ++ value x ∷ []) ≡ stored (xs ++ x ∷ [])
  sorted-append [] x = refl
  sorted-append (y ∷ xs) x = rw (sort_keys-sort_keys (value y), sorted-append xs x) refl

-- The tokens but those with an id.
abbrev pub others : String → List ApiTokenRecord → List ApiTokenRecord
others id = keep (λ r. not (r.token_id == id))

others-HaveSets : (id : String) (rs : List ApiTokenRecord) → HaveSets rs → HaveSets (others id rs)
others-HaveSets id [] h = tt
others-HaveSets id (r ∷ rs) (h, hs) = elim (Bool-cases (r.token_id == id)) [
  | inl y ↦ rw y (others-HaveSets id rs hs)
  | inr n ↦ rw n (h, others-HaveSets id rs hs)
]

module _ (py : Runtime) (library : Texts) (json : Codec) (lib : Crypto) where
  -- The file reads as the dicts of these tokens and these events, with sorted keys.
  pub record Holds (file : File py library json lib) (rs : List ApiTokenRecord)
      (es : List AuditEvent) : Type 0 where
    pub loads : load py library json lib file ≡ ok (document rs es)
    pub sets : HaveSets rs

  load-save :
      (d : Document)
      → load py library json lib (save py library json lib d)
        ≡ ok (record {
          tokens = map sort_keys d.tokens;
          audit_events = map sort_keys d.audit_events;
        })
  unfolding load save iterate Dict.lookup string_eq nat_eq sorted_keys sort_keys insert_field
  load-save d =
      rw
        (
          json.loads-dumps,
          sort_items-items d.tokens,
          sort_items-items d.audit_events,
          elements-items (map sort_keys d.tokens),
          elements-items (map sort_keys d.audit_events),
        )
        refl

  pub save-Holds :
      (d : Document) (rs : List ApiTokenRecord) (es : List AuditEvent)
      → map sort_keys d.tokens ≡ map stored_token rs
      → map sort_keys d.audit_events ≡ map stored_event es
      → HaveSets rs
      → Holds (save py library json lib d) rs es
  save-Holds d rs es t e h = record { loads = rw (load-save d, t, e) refl; sets = h }

  pub logged-Holds :
      (rs : List ApiTokenRecord) (es : List AuditEvent) (event : AuditEvent)
      → HaveSets rs
      → Holds (save py library json lib (logged rs es event)) rs (es ++ event ∷ [])
  logged-Holds rs es event h =
      save-Holds (logged rs es event) rs (es ++ event ∷ []) (sorted-stored token_value rs)
        (sorted-append event_value es event) h

  pub rewritten-Holds :
      (rs : List ApiTokenRecord) (es : List AuditEvent) (event : AuditEvent)
      → HaveSets rs
      → Holds (save py library json lib (rewritten rs es event)) rs (es ++ event ∷ [])
  rewritten-Holds rs es event h =
      save-Holds (rewritten rs es event) rs (es ++ event ∷ []) (sorted-values token_value rs)
        (sorted-append event_value es event) h

  pub none-Holds : Holds none [] []
  unfolding load
  none-Holds = record { loads = refl; sets = tt }

  pub records_of-map :
      (rs : List ApiTokenRecord)
      → HaveSets rs
      → records_of py library json lib (map stored_token rs) ≡ ok rs
  unfolding records_of
  records_of-map [] h = refl
  records_of-map (r ∷ rs) (h, hs) =
      rw (from_dict-to_dict py r h, records_of-map rs hs, records_of) refl

  events_of-map :
      (es : List AuditEvent)
      → events_of py library json lib (map stored_event es) ≡ ok (map (read_event py) es)
  unfolding events_of
  events_of-map [] = refl
  events_of-map (e ∷ es) =
      rw (event_from_dict-event_to_dict py library e, events_of-map es, events_of) refl

  without-map :
      (id : String) (rs : List ApiTokenRecord)
      → without py library json lib id (map stored_token rs) ≡ ok (map stored_token (others id rs))
  unfolding without get str to_dict Dict.lookup string_eq nat_eq sort_keys insert_field
  without-map id [] = refl
  without-map id (r ∷ rs) = elim (Bool-cases (r.token_id == id)) [
    | inl y ↦ rw (without-map id rs, y) refl
    | inr n ↦ rw (without-map id rs, n) refl
  ]

  abbrev saved : ApiTokenRecord → List ApiTokenRecord → List AuditEvent → Document
  saved r rs es = record {
    tokens = map stored_token (others r.token_id rs) ++ token_value r ∷ [];
    audit_events = map stored_event es;
  }

  -- `save_token` puts the record at the end, in place of every token with its id.
  pub save_token_lem :
      (r : ApiTokenRecord) (file : File py library json lib) (rs : List ApiTokenRecord)
      (es : List AuditEvent)
      → Holds file rs es
      → save_token py library json lib r file ≡ (ok r, save py library json lib (saved r rs es))
  unfolding save_token
  save_token_lem r file rs es h = rw (h.loads, without-map r.token_id rs, save_token) refl

  pub save_token-Holds :
      (r : ApiTokenRecord) (file : File py library json lib) (rs : List ApiTokenRecord)
      (es : List AuditEvent)
      → IsFrozenset r.scopes
      → Holds file rs es
      → Holds (save_token py library json lib r file).1 (others r.token_id rs ++ r ∷ []) es
  save_token-Holds r file rs es s h = rw (save_token_lem r file rs es h) (
      save-Holds (saved r rs es) _ es (sorted-append token_value (others r.token_id rs) r)
        (sorted-stored event_value es)
        (All-append _ (others r.token_id rs) (r ∷ []) (others-HaveSets r.token_id rs h.sets)
          (s, tt)))

  pub list_tokens_lem :
      (tenant : Option String) (file : File py library json lib) (rs : List ApiTokenRecord)
      (es : List AuditEvent)
      → Holds file rs es
      → list_tokens py library json lib tenant file
        ≡ ok (keep (λ r. is_asked tenant r.tenant_id) rs)
  unfolding list_tokens
  list_tokens_lem tenant file rs es h = rw (h.loads, records_of-map rs h.sets, list_tokens) refl

  keep-all : (rs : List ApiTokenRecord) → keep (λ r. is_asked none r.tenant_id) rs ≡ rs
  keep-all [] = refl
  keep-all (r ∷ rs) = ap (◌∷◌ r) (keep-all rs)

  pub get_token_lem :
      (id : String) (file : File py library json lib) (rs : List ApiTokenRecord)
      (es : List AuditEvent)
      → Holds file rs es
      → get_token py library json lib id file ≡ find_token id rs
  unfolding get_token
  get_token_lem id file rs es h =
      rw (list_tokens_lem none file rs es h, keep-all rs, get_token) refl

  find_token-others :
      (id : String) (r : ApiTokenRecord) (rs : List ApiTokenRecord)
      → find_token id (others r.token_id rs ++ r ∷ [])
        ≡ (if r.token_id == id then ok r else find_token id rs)
  unfolding find_token
  find_token-others id r [] = refl
  find_token-others id r (q ∷ rs) = elim (Bool-cases (q.token_id == r.token_id)) [
    | inl y ↦ rw y (ground (arith, find_token-others id r rs))
    | inr n ↦ rw n (ground (arith, find_token-others id r rs))
  ]

  -- What `get` finds after `save`: the saved record under its id, and under every other id what it
  -- found before.
  pub get_token-save_token :
      (id : String) (r : ApiTokenRecord) (file : File py library json lib)
      (rs : List ApiTokenRecord) (es : List AuditEvent)
      → IsFrozenset r.scopes
      → Holds file rs es
      → get_token py library json lib id (save_token py library json lib r file).1
        ≡ (if r.token_id == id then ok r else get_token py library json lib id file)
  get_token-save_token id r file rs es s h =
      rw
        (get_token_lem id _ _ es (save_token-Holds r file rs es s h), get_token_lem id file rs es h)
        (find_token-others id r rs)

  pub list_audit_events_lem :
      (tenant kind : Option String) (file : File py library json lib) (rs : List ApiTokenRecord)
      (es : List AuditEvent)
      → Holds file rs es
      → list_audit_events py library json lib tenant kind file
        ≡ ok (filter_events tenant kind (map (read_event py) es))
  unfolding list_audit_events
  list_audit_events_lem tenant kind file rs es h =
      rw (h.loads, events_of-map es, list_audit_events) refl

  pub record_audit_event-Holds :
      (event : AuditEvent) (file : File py library json lib) (rs : List ApiTokenRecord)
      (es : List AuditEvent)
      → Holds file rs es
      → Holds (record_audit_event py library json lib event file).1 rs (es ++ event ∷ [])
  unfolding record_audit_event
  record_audit_event-Holds event file rs es h =
      rw (h.loads, record_audit_event) (logged-Holds rs es event h.sets)
