-- ===== src/Postgres/Rows.antt =====
-- Lemmas on rows that are found, updated and appended.
use mathlib.Core.Option
use edctranslation_public.Prelude.{
  ◌∙◌, String, ◌≡◌, refl, Bool, true, false, none, some, List, [], ◌∷◌, ◌++◌, arith, ◌==◌,
  string_eq, All, if◌then◌else◌,
}
use edctranslation_public.Postgres.Tables.{find, update_where}

module _ {ℓ} {A : Type ℓ} (p : A → Bool) where
  pub find_holds : (rs : List A) (r : A) → find p rs ≡ some r → p r ≡ true
  find_holds [] r h = cc
  find_holds (q ∷ rs) r h = ground (arith, find_holds rs r)

  pub find-append :
      (rs : List A) (r : A)
      → find p (rs ++ r ∷ [])
        ≡ elim (find p rs) [ none ↦ if p r then some r else none | some q ↦ some q ]
  find-append [] r = ground arith
  find-append (q ∷ rs) r = ground (arith, find-append rs r)

module _ {ℓ} {A : Type ℓ} (key : A → String) (p : A → Bool) (f : A → A)
    (keeps : (r : A) → key (f r) ≡ key r) where
  -- An update that keeps the key is seen by each lookup on the row that it would find.
  pub find-update_where :
      (j : String) (rs : List A)
      → find (λ r. key r == j) (update_where p f rs)
        ≡ Option.map (λ r. if p r then f r else r) (find (λ r. key r == j) rs)
  find-update_where j [] = refl
  find-update_where j (r ∷ rs) = ground (arith, keeps r, find-update_where j rs)

module _ {ℓ κ} {A : Type ℓ} (P : A → Type κ) (p : A → Bool) (f : A → A) where
  pub All-update_where :
      (rs : List A)
      → ((r : A) → p r ≡ true → P r → P (f r))
      → All P rs
      → All P (update_where p f rs)
  All-update_where [] step h = h
  All-update_where (r ∷ rs) step (h, hs) = (at r (p r) refl, All-update_where rs step hs)
    where
      at : (q : A) (b : Bool) → p r ≡ b → P (if b then f r else r)
      at q true e = step r e h
      at q false e = h

module _ {ℓ} {A : Type ℓ} (key : A → String) (f : A → A) (keeps : (r : A) → key (f r) ≡ key r) where
  -- An update of one key is seen by the lookups of that key alone.
  pub find-update_key :
      (k j : String) (rs : List A)
      → find (λ r. key r == j) (update_where (λ r. key r == k) f rs)
        ≡ (if j == k then Option.map f (find (λ r. key r == j) rs) else find (λ r. key r == j) rs)
  find-update_key k j [] = ground arith
  find-update_key k j (r ∷ rs) = ground (arith, keeps r, find-update_key k j rs)

module _ {ℓ} {A : Type ℓ} (p : A → Bool) where
  pub find_absent_append :
      (rs : List A) (r : A)
      → find p rs ≡ none
      → find p (rs ++ r ∷ []) ≡ (if p r then some r else none)
  find_absent_append rs r h = find-append p rs r ∙ rw h
