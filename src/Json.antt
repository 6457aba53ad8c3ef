-- ===== src/Json.antt =====
-- The values that JSON messages, metadata and `dict[str, Any]` payloads hold, and the conversions
-- of Python that the program applies to them (`str`, `bool`, `dict`, iteration, `.get`).
pub mod Sorting
use edctranslation_public.Prelude.{
  ℕ, zero, String, ◌≡◌, ap, refl, Bool, true, false, not, Option, none, some, List, [], ◌∷◌, ◌==◌,
  string_eq, nat_eq, ◌||◌, if◌then◌else◌,
}
use edctranslation_public.Prelude.Dict
use edctranslation_public.Prelude.Dict.{Dict}
use edctranslation_public.Prelude.Errors.{Result, ok, err, Exception, key_error, attribute_error}

-- `negsuc n` is -(n + 1).
pub data ℤ : Type 0 where
  pos : ℕ → ℤ
  negsuc : ℕ → ℤ

-- A float is given by the 64 bits that stand for it.
mutual
  pub data Value : Type 0 where
    null : Value
    flag : Bool → Value
    whole : ℤ → Value
    float : ℕ → Value
    text : String → Value
    list : Items → Value
    dict : Fields → Value

  pub data Items : Type 0 where
    nil : Items
    cons : Value → Items → Items

  pub data Fields : Type 0 where
    end : Fields
    field : String → Value → Fields → Fields

abbrev pub Payload : Type 0
Payload = Dict String Value

abbrev pub entries : Fields → Payload
entries end = []
entries (field k v fs) = (k, v) ∷ entries fs

abbrev pub fields : Payload → Fields
fields [] = end
fields ((k, v) ∷ d) = field k v (fields d)

abbrev pub elements : Items → List Value
elements nil = []
elements (cons v vs) = v ∷ elements vs

abbrev pub items : List Value → Items
items [] = nil
items (v ∷ vs) = cons v (items vs)

abbrev pub texts : List String → Items
texts [] = nil
texts (s ∷ ss) = cons (text s) (texts ss)

pub entries-fields : (d : Payload) → entries (fields d) ≡ d
entries-fields [] = refl
entries-fields ((k, v) ∷ d) = ap (◌∷◌ (k, v)) (entries-fields d)

-- `bool(v)`: zero is false, and so are 0.0, -0.0 and what is empty.
unfoldable pub truthy : Value → Bool
truthy null = false
truthy (flag b) = b
truthy (whole (ℤ.pos zero)) = false
truthy (whole _) = true
truthy (float bits) = not (bits == 0 || bits == 0x8000000000000000)
truthy (text s) = not (s == "")
truthy (list nil) = false
truthy (list (cons _ _)) = true
truthy (dict end) = false
truthy (dict (field _ _ _)) = true

-- What the runtime does with the values that the program leaves to it: `str(v)` of what is no
-- text, `dict(v)` of what is no dict, iteration over what is no list, `int(v)` of what is no int.
pub record Runtime : Type 0 where
  pub str_other : Value → String
  pub dict_other : Value → Result Exception Payload
  pub iterate_other : Value → Result Exception (List Value)
  pub int_other : Value → Result Exception ℤ

module _ (py : Runtime) where
  unfoldable pub str : Value → String
  str (text s) = s
  str v = py.str_other v

  unfoldable pub dict_of : Value → Result Exception Payload
  dict_of (dict fs) = ok (entries fs)
  dict_of v = py.dict_other v

  unfoldable pub iterate : Value → Result Exception (List Value)
  iterate (list vs) = ok (elements vs)
  iterate v = py.iterate_other v

  unfoldable pub int_of : Value → Result Exception ℤ
  int_of (whole n) = ok n
  int_of v = py.int_other v

-- `v.get(key, default)`, where only a dict has `get`.
unfoldable pub get : Value → String → Value → Result Exception Value
get (dict fs) key default = ok (elim (Dict.lookup key (entries fs)) [ none ↦ default | some v ↦ v ])
get _ key default = err attribute_error

-- `payload.get(key, default)` and `payload[key]`
abbrev pub get_or : Payload → String → Value → Value
get_or d key default = elim (Dict.lookup key d) [ none ↦ default | some v ↦ v ]

abbrev pub index : Payload → String → Result Exception Value
index d key = elim (Dict.lookup key d) [ none ↦ err (key_error key) | some v ↦ ok v ]

-- `s or t` on an optional text: the empty text counts as absent.
abbrev pub text_or {ℓ} : {A : Type ℓ} → Option String → (String → A) → A → A
text_or none f other = other
text_or (some s) f other = if s == "" then other else f s
