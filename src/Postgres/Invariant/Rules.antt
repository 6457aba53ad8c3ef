-- ===== src/Postgres/Invariant/Rules.antt =====
-- How updates and new rows keep the parts of the queue's invariant.
use edctranslation_public.Prelude.{
  ◌∙◌, ℕ, ◌≤◌, ◌⊎◌, inl, inr, option_eq, Bool-cases, String, ◌≡◌, refl, Bool, true, false, ◌||◌,
  none, some, List, [], ◌∷◌, ◌++◌, arith, ◌==◌, string_eq, All, if◌then◌else◌,
}
use mathlib.Core.Path.{subst}
use edctranslation_public.Postgres.Tables.{WorkRow, DeadLetter, find, update_where, has_work}
use edctranslation_public.Postgres.Claim.{Unique}
use edctranslation_public.Postgres.Rows.{find-update_where, find_absent_append}
use edctranslation_public.Postgres.Invariant.{buried, Buried, Waiting}

module _ (p : WorkRow → Bool) (f : WorkRow → WorkRow)
    (keeps : (r : WorkRow) → (f r).work_id ≡ r.work_id) where
  kept_id : (b : Bool) (r : WorkRow) → (if b then f r else r).work_id ≡ r.work_id
  kept_id true r = keeps r
  kept_id false r = refl

  pub Unique-update_where : (rs : List WorkRow) → Unique rs → Unique (update_where p f rs)
  Unique-update_where [] u = tt
  Unique-update_where (r ∷ rs) (fresh, u) = (
    rw
        (
          kept_id (p r) r,
          find-update_where (λ (q : WorkRow). q.work_id) p f keeps r.work_id rs,
          fresh,
        )
        refl,
    Unique-update_where rs u,
  )

pub Unique-append :
    (rs : List WorkRow) (r : WorkRow)
    → Unique rs
    → find (has_work r.work_id) rs ≡ none
    → Unique (rs ++ r ∷ [])
Unique-append [] r u h = (refl, tt)
Unique-append (q ∷ rs) r (fresh, u) h = (
  find_absent_append (has_work q.work_id) rs r fresh ∙ ground (arith, h),
  Unique-append rs r u (ground (arith, h)),
)

pub buried-append :
    (id : String) (ls : List DeadLetter) (l : DeadLetter)
    → buried id (ls ++ l ∷ []) ≡ (buried id ls || l.work_id == id)
buried-append id [] l = ground arith
buried-append id (m ∷ ls) l = ground (arith, buried-append id ls l)

buried-more :
    (id : String) (ls : List DeadLetter) (l : DeadLetter)
    → buried id ls ≡ true
    → buried id (ls ++ l ∷ []) ≡ true
buried-more id ls l h = rw (buried-append id ls l, h) refl

-- A dead letter for the row that waits for it leaves every failed row with one.
pub Buried-append :
    (limit : ℕ) (work : String) (ls : List DeadLetter) (l : DeadLetter) (rs : List WorkRow)
    → l.work_id ≡ work
    → All (Waiting limit work ls) rs
    → All (Buried limit (ls ++ l ∷ [])) rs
Buried-append limit work ls l [] e h = tt
Buried-append limit work ls l (r ∷ rs) e (w, h) =
    (λ failed. one (w failed), Buried-append limit work ls l rs e h)
  where
    one :
        (limit ≤ r.attempts) × ((r.work_id ≡ work) ⊎ (buried r.work_id ls ≡ true))
        → (limit ≤ r.attempts) × (buried r.work_id (ls ++ l ∷ []) ≡ true)
    one (le, inr b) = (le, buried-more r.work_id ls l b)
    one (le, inl own) = (le, rw (buried-append r.work_id ls l) (ground (arith, own, e)))

pub All-find {ℓ κ} :
    {A : Type ℓ} (P : A → Type κ) (p : A → Bool) (rs : List A) (r : A)
    → All P rs
    → find p rs ≡ some r
    → P r
All-find P p [] r h f = absurd (cc f)
All-find P p (q ∷ rs) r (h, hs) f = elim (Bool-cases (p q)) [
  | inl y ↦ subst P (cc (rw y at f)) h
  | inr n ↦ All-find P p rs r hs (rw n at f)
]
