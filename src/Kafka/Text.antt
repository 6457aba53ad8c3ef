-- ===== src/Kafka/Text.antt =====
-- What the Kafka contract uses of Python's texts: their order, sorting, joining, and the numbers of
-- `f"{n:06d}"`.
use edctranslation_public.Prelude.{
  ℕ, zero, suc, ◌/◌, ◌%◌, String, ◌<>◌, Bool, true, false, List, [], ◌∷◌, ltb, ◌==◌, nat_eq,
  if◌then◌else◌,
}
use Prim.Native.Char.{code}

abbrev pub comes_first : String → String → Bool
comes_first String.[] String.[] = false
comes_first String.[] (String.◌∷◌ d t) = true
comes_first (String.◌∷◌ c s) String.[] = false
comes_first (String.◌∷◌ c s) (String.◌∷◌ d t) =
    let rest = comes_first s t in
    if ltb (code c) (code d) then true else if code c == code d then rest else false

-- `sorted` by a key that is a text; what sorts alike keeps its order.
module _ {ℓ} {A : Type ℓ} (key : A → String) where
  abbrev pub place : A → List A → List A
  place x [] = x ∷ []
  place x (y ∷ ys) = if comes_first (key y) (key x) then y ∷ place x ys else x ∷ y ∷ ys

  abbrev pub sorted : List A → List A
  sorted [] = []
  sorted (x ∷ xs) = place x (sorted xs)

abbrev pub join : String → List String → String
join sep [] = ""
join sep (s ∷ []) = s
join sep (s ∷ t ∷ ss) = s <> sep <> join sep (t ∷ ss)

abbrev pub digit : ℕ → String
digit n =
    if n == 0
    then "0"
    else if n == 1
    then "1"
    else if n == 2
    then "2"
    else if n == 3
    then "3"
    else if n == 4
    then "4"
    else if n == 5
    then "5"
    else if n == 6
    then "6"
    else if n == 7
    then "7"
    else if n == 8
    then "8"
    else "9"

-- A number without leading zeros, the empty text for zero; the number itself is enough fuel.
abbrev pub decimal : ℕ → ℕ → String
decimal zero n = ""
decimal (suc fuel) n =
    let front = decimal fuel (n / 10) in if n == 0 then "" else front <> digit (n % 10)

-- At least `w` digits.
abbrev pub padded : ℕ → ℕ → String
padded zero n = decimal n n
padded (suc w) n = padded w (n / 10) <> digit (n % 10)
