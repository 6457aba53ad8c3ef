-- ===== src/Auth/Sets.antt =====
-- Python's `frozenset[str]`: a set is given by its members in the order of `sorted`, each once, so
-- that equal sets are equal lists and `sorted(s)` is the list itself.
use text.Mathlib.TextEquality.{Char-path}
use mathlib.Core.Path.{subst}
use edctranslation_public.Prelude.{
  String, ◌≡◌, ◌≢◌, refl, true, false, ◌||◌, List, [], ◌∷◌, ◌++◌, ◌==◌, contains, string_eq, nat_eq,
  if◌then◌else◌, inl, inr, ◌⊎◌, sym, arith,
}
use edctranslation_public.Kafka.Text.{comes_first}

unfoldable pub adjoin : String → List String → List String
adjoin x [] = x ∷ []
adjoin x (y ∷ ys) =
    let rest = adjoin x ys in
    if comes_first x y then x ∷ y ∷ ys else if x == y then y ∷ ys else y ∷ rest

-- `frozenset(xs)`
unfoldable pub frozenset : List String → List String
frozenset [] = []
frozenset (x ∷ xs) = adjoin x (frozenset xs)

abbrev Follows : String → List String → Type 0
Follows x [] = Unit
Follows x (y ∷ ys) = comes_first x y ≡ true

abbrev pub IsFrozenset : List String → Type 0
IsFrozenset [] = Unit
IsFrozenset (x ∷ xs) = Follows x xs × IsFrozenset xs

-- Of two different texts one comes first.
comes_first-total : (s t : String) → comes_first s t ≡ false → s ≢ t → comes_first t s ≡ true
comes_first-total String.[] String.[] h n = absurd (n refl)
comes_first-total String.[] (String.◌∷◌ d t) h n = ground arith
comes_first-total (String.◌∷◌ c s) String.[] h n = refl
comes_first-total (String.◌∷◌ c s) (String.◌∷◌ d t) h n =
    ground (arith, Char-path c d, comes_first-total s t)

Follows-adjoin :
    (y x : String) (ys : List String)
    → comes_first y x ≡ true
    → Follows y ys
    → Follows y (adjoin x ys)
unfolding adjoin
Follows-adjoin y x [] h f = h
Follows-adjoin y x (z ∷ ys) h f = ground arith

adjoin-nil : (x : String) → adjoin x [] ≡ x ∷ []
unfolding adjoin
adjoin-nil x = refl

-- The three ways in which a text finds its place.
adjoin-cases :
    (x y : String) (ys : List String)
    → ((comes_first x y ≡ true) × (adjoin x (y ∷ ys) ≡ x ∷ y ∷ ys))
      ⊎ ((adjoin x (y ∷ ys) ≡ y ∷ ys)
          ⊎ ((comes_first y x ≡ true) × (adjoin x (y ∷ ys) ≡ y ∷ adjoin x ys)))
unfolding adjoin
adjoin-cases x y ys = ground (arith, comes_first-total x y)

adjoin-IsFrozenset : (x : String) (ys : List String) → IsFrozenset ys → IsFrozenset (adjoin x ys)
adjoin-IsFrozenset x [] h = subst IsFrozenset (sym (adjoin-nil x)) (tt, tt)
adjoin-IsFrozenset x (y ∷ ys) (f, h) = elim (adjoin-cases x y ys) [
  | inl (first, p) ↦ subst IsFrozenset (sym p) (first, (f, h))
  | inr (inl p) ↦ subst IsFrozenset (sym p) (f, h)
  | inr (inr (later, p)) ↦
      subst IsFrozenset (sym p) (Follows-adjoin y x ys later f, adjoin-IsFrozenset x ys h)
]

pub frozenset-IsFrozenset : (xs : List String) → IsFrozenset (frozenset xs)
unfolding frozenset
frozenset-IsFrozenset [] = tt
frozenset-IsFrozenset (x ∷ xs) = adjoin-IsFrozenset x (frozenset xs) (frozenset-IsFrozenset xs)

adjoin-Follows : (x : String) (xs : List String) → Follows x xs → adjoin x xs ≡ x ∷ xs
unfolding adjoin
adjoin-Follows x [] h = refl
adjoin-Follows x (y ∷ ys) h = rw h

-- A set is the set of its members.
pub frozenset_id : (xs : List String) → IsFrozenset xs → frozenset xs ≡ xs
unfolding frozenset
frozenset_id [] h = refl
frozenset_id (x ∷ xs) (f, h) = rw (frozenset_id xs h) (adjoin-Follows x xs f)

contains-adjoin :
    (x : String) (ys : List String) (a : String)
    → contains (adjoin x ys) a ≡ (a == x || contains ys a)
unfolding adjoin
contains-adjoin x [] a = refl
contains-adjoin x (y ∷ ys) a = ground (arith, contains-adjoin x ys a)

pub contains-frozenset : (xs : List String) (a : String) → contains (frozenset xs) a ≡ contains xs a
unfolding frozenset
contains-frozenset [] a = refl
contains-frozenset (x ∷ xs) a =
    ground (arith, contains-adjoin x (frozenset xs) a, contains-frozenset xs a)

pub contains-append :
    (xs ys : List String) (a : String) → contains (xs ++ ys) a ≡ (contains xs a || contains ys a)
contains-append [] ys a = refl
contains-append (x ∷ xs) ys a = ground (arith, contains-append xs ys a)
