-- ===== src/Postgres/Claim.antt =====
-- Which row a poll claims, and what else it leaves alone.
use edctranslation_public.Prelude.{
  ℕ, String, ◌≡◌, refl, ◌⊎◌, Bool, true, false, ◌&&◌, not, Option, none, some, List, [], ◌∷◌, arith,
  string_eq, All, Bool-cases, inl, inr,
}
use edctranslation_public.Json.{ℤ, pos, negsuc}
use edctranslation_public.Postgres.Tables.{WorkRow, find, has_work}
use edctranslation_public.Postgres.Statements.{claimable, comes_before, better, next_work}

-- No work id stands in the table twice, as its primary key demands.
abbrev pub Unique : List WorkRow → Type 0
Unique [] = Unit
Unique (r ∷ rs) = (find (has_work r.work_id) rs ≡ none) × Unique rs

abbrev pub In : WorkRow → List WorkRow → Type 0
In r [] = ⊥
In r (q ∷ rs) = (q ≡ r) ⊎ In r rs

pub In-find :
    (rs : List WorkRow) (r : WorkRow) → Unique rs → In r rs → find (has_work r.work_id) rs ≡ some r
In-find [] r u i = absurd i
In-find (q ∷ rs) r (fresh, u) (inl e) = ground arith
In-find (q ∷ rs) r (fresh, u) (inr i) = ground (arith, In-find rs r u i, fresh)

not_before_trans :
    (a b c : WorkRow)
    → comes_before a b ≡ false
    → comes_before b c ≡ false
    → comes_before a c ≡ false
unfolding comes_before
not_before_trans a b c h k = by_priority a.priority b.priority c.priority refl refl refl
  where
    by_priority :
        (x y z : ℤ) → a.priority ≡ x → b.priority ≡ y → c.priority ≡ z → comes_before a c ≡ false
    by_priority (pos x) (pos y) (pos z) p q r = ground arith
    by_priority x y z p q r = ground arith

module _ (busy : String → Bool) (timeout now : ℕ) where
  -- A row that the statement may take: due or timed out, and not locked by another transaction.
  abbrev pub eligible : WorkRow → Bool
  eligible r = claimable timeout now r && not (busy r.work_id)

  -- No row that the statement may take sorts before `r`.
  abbrev pub IsFirst : List WorkRow → WorkRow → Type 0
  IsFirst rs r = All (λ q. eligible q ≡ true → comes_before q r ≡ false) rs

  comes_before_self : (r : WorkRow) → comes_before r r ≡ false
  unfolding comes_before
  comes_before_self r = by_priority r.priority refl
    where
      by_priority : (x : ℤ) → r.priority ≡ x → comes_before r r ≡ false
      by_priority (pos x) p = ground arith
      by_priority (negsuc x) p = ground arith

  comes_before_asym : (a b : WorkRow) → comes_before a b ≡ true → comes_before b a ≡ false
  unfolding comes_before
  comes_before_asym a b h = by_priority a.priority b.priority refl refl
    where
      by_priority : (x y : ℤ) → a.priority ≡ x → b.priority ≡ y → comes_before b a ≡ false
      by_priority (pos x) (pos y) p q = ground arith
      by_priority x y p q = ground arith

  IsFirst-weaken :
      (rs : List WorkRow) (a b : WorkRow) → comes_before a b ≡ false → IsFirst rs a → IsFirst rs b
  IsFirst-weaken [] a b h f = tt
  IsFirst-weaken (q ∷ rs) a b h (first, others) =
      (λ e. not_before_trans q a b (first e) h, IsFirst-weaken rs a b h others)

  -- What `next_work` selects from a table.
  abbrev pub Chosen : List WorkRow → Option WorkRow → Type 0
  Chosen rs none = All (λ q. eligible q ≡ false) rs
  Chosen rs (some r) = In r rs × (eligible r ≡ true) × IsFirst rs r

  none_eligible-IsFirst :
      (rs : List WorkRow) (r : WorkRow) → All (λ q. eligible q ≡ false) rs → IsFirst rs r
  none_eligible-IsFirst [] r h = tt
  none_eligible-IsFirst (q ∷ rs) r (h, hs) = (λ e. cc, none_eligible-IsFirst rs r hs)

  better-Chosen :
      (q : WorkRow) (rs : List WorkRow) (b : Bool) (o : Option WorkRow)
      → eligible q ≡ b
      → Chosen rs o
      → Chosen (q ∷ rs) (better b q o)
  better-Chosen q rs false none e h = (e, h)
  better-Chosen q rs false (some r) e (i, g, f) = (inr i, g, (λ t. cc, f))
  better-Chosen q rs true none e h =
      (inl refl, e, (λ t. comes_before_self q, none_eligible-IsFirst rs q h))
  better-Chosen q rs true (some r) e (i, g, f) = elim (Bool-cases (comes_before r q)) [
    | inl first ↦ rw first (inr i, g, (λ t. comes_before_asym r q first, f))
    | inr not_first ↦
        rw not_first (inl refl, e, (λ t. comes_before_self q, IsFirst-weaken rs r q not_first f))
  ]

  pub next_work-Chosen : (rs : List WorkRow) → Chosen rs (next_work busy timeout now rs)
  unfolding next_work
  next_work-Chosen [] = tt
  next_work-Chosen (q ∷ rs) =
      better-Chosen q rs (eligible q) (next_work busy timeout now rs) refl (next_work-Chosen rs)
