-- ===== src/Json/Sorting.antt =====
-- JSON values whose dicts have their keys in order, as `json.dumps(..., sort_keys=True)` writes them
-- (edc_translation/auth.py). Python sorts texts by their code points.
use edctranslation_public.Prelude.{
  String, ◌≡◌, refl, ap, true, false, List, [], ◌∷◌, nat_eq, arith, map, if◌then◌else◌, Bool-cases,
  inl, inr,
}
use edctranslation_public.Kafka.Text.{comes_first}
use edctranslation_public.Json.{
  Value, null, flag, whole, float, text, list, dict, Items, nil, cons, Fields, end, field, Payload,
  entries, fields, items, texts,
}

-- A field in its place; of keys that are alike the new one comes first.
unfoldable pub insert_field : String → Value → Fields → Fields
insert_field k v end = field k v end
insert_field k v (field j w fs) =
    let rest = insert_field k v fs in
    if comes_first j k then field j w rest else field k v (field j w fs)

unfoldable mutual
  pub sort_keys : Value → Value
  sort_keys (list vs) = list (sort_items vs)
  sort_keys (dict fs) = dict (sort_fields fs)
  sort_keys null = null
  sort_keys (flag b) = flag b
  sort_keys (whole n) = whole n
  sort_keys (float n) = float n
  sort_keys (text s) = text s

  pub sort_items : Items → Items
  sort_items nil = nil
  sort_items (cons v vs) = cons (sort_keys v) (sort_items vs)

  pub sort_fields : Fields → Fields
  sort_fields end = end
  sort_fields (field k v fs) = insert_field k (sort_keys v) (sort_fields fs)

unfoldable pub sorted_keys : Payload → Payload
sorted_keys d = entries (sort_fields (fields d))

comes_first-asymmetric : (s t : String) → comes_first s t ≡ true → comes_first t s ≡ false
comes_first-asymmetric String.[] String.[] h = absurd (cc h)
comes_first-asymmetric String.[] (String.◌∷◌ d t) h = refl
comes_first-asymmetric (String.◌∷◌ c s) String.[] h = absurd (cc h)
comes_first-asymmetric (String.◌∷◌ c s) (String.◌∷◌ d t) h =
    ground (arith, h, comes_first-asymmetric s t)

-- The first field may stand behind `k`.
abbrev Follows : String → Fields → Type 0
Follows k end = Unit
Follows k (field j w fs) = comes_first j k ≡ false

-- The keys are in order, and each value is sorted.
abbrev IsSorted : Fields → Type 0
IsSorted end = Unit
IsSorted (field k v fs) = Follows k fs × (sort_keys v ≡ v) × IsSorted fs

insert_field-Follows :
    (j k : String) (v : Value) (fs : Fields)
    → comes_first k j ≡ false
    → Follows j fs
    → Follows j (insert_field k v fs)
unfolding insert_field
insert_field-Follows j k v end a h = a
insert_field-Follows j k v (field i w fs) a h = elim (Bool-cases (comes_first i k)) [
  | inl y ↦ rw y h
  | inr n ↦ rw n a
]

insert_field-IsSorted :
    (k : String) (v : Value) (fs : Fields)
    → sort_keys v ≡ v
    → IsSorted fs
    → IsSorted (insert_field k v fs)
unfolding insert_field
insert_field-IsSorted k v end s h = (tt, s, tt)
insert_field-IsSorted k v (field j w fs) s (f, x, h) = elim (Bool-cases (comes_first j k)) [
  | inl y ↦ rw y (
    insert_field-Follows j k v fs (comes_first-asymmetric j k y) f,
    x,
    insert_field-IsSorted k v fs s h,
  )
  | inr n ↦ rw n (n, s, (f, x, h))
]

insert_field-first :
    (k : String) (v : Value) (fs : Fields) → Follows k fs → insert_field k v fs ≡ field k v fs
unfolding insert_field
insert_field-first k v end h = refl
insert_field-first k v (field j w fs) h = rw h refl

sort_fields-id : (fs : Fields) → IsSorted fs → sort_fields fs ≡ fs
unfolding sort_fields
sort_fields-id end h = refl
sort_fields-id (field k v fs) (f, s, h) = rw (s, sort_fields-id fs h) (insert_field-first k v fs f)

mutual
  unfolding sort_keys

  pub sort_keys-sort_keys : (v : Value) → sort_keys (sort_keys v) ≡ sort_keys v
  sort_keys-sort_keys (list vs) = ap list (sort_items-sort_items vs)
  sort_keys-sort_keys (dict fs) =
      ap dict (sort_fields-id (sort_fields fs) (sort_fields-IsSorted fs))
  sort_keys-sort_keys null = refl
  sort_keys-sort_keys (flag b) = refl
  sort_keys-sort_keys (whole n) = refl
  sort_keys-sort_keys (float n) = refl
  sort_keys-sort_keys (text s) = refl

  sort_items-sort_items : (vs : Items) → sort_items (sort_items vs) ≡ sort_items vs
  sort_items-sort_items nil = refl
  sort_items-sort_items (cons v vs) = rw (sort_keys-sort_keys v, sort_items-sort_items vs) refl

  sort_fields-IsSorted : (fs : Fields) → IsSorted (sort_fields fs)
  sort_fields-IsSorted end = tt
  sort_fields-IsSorted (field k v fs) =
      insert_field-IsSorted k (sort_keys v) (sort_fields fs) (sort_keys-sort_keys v)
        (sort_fields-IsSorted fs)

pub sort_items-texts : (ss : List String) → sort_items (texts ss) ≡ texts ss
unfolding sort_keys
sort_items-texts [] = refl
sort_items-texts (s ∷ ss) = ap (cons (text s)) (sort_items-texts ss)

pub sort_items-items : (vs : List Value) → sort_items (items vs) ≡ items (map sort_keys vs)
unfolding sort_keys
sort_items-items [] = refl
sort_items-items (v ∷ vs) = ap (cons (sort_keys v)) (sort_items-items vs)

pub map-sort_keys-sort_keys :
    (vs : List Value) → map sort_keys (map sort_keys vs) ≡ map sort_keys vs
map-sort_keys-sort_keys [] = refl
map-sort_keys-sort_keys (v ∷ vs) = rw (sort_keys-sort_keys v, map-sort_keys-sort_keys vs) refl
