-- ===== src/Postgres/Held.antt =====
-- The row of work that a worker holds, as the statements on `work_id` and `locked_by` find it.
use edctranslation_public.Prelude.{
  String, ◌≡◌, refl, ◌≢◌, none, some, List, [], ◌∷◌, arith, string_eq, option_eq,
}
use edctranslation_public.Postgres.Tables.{WorkRow, find, update_where, has_work}
use edctranslation_public.Postgres.Statements.{held}
use edctranslation_public.Postgres.Claim.{Unique}

module _ (work worker : String) where
  pub find-held :
      (rs : List WorkRow) (r : WorkRow)
      → find (has_work work) rs ≡ some r
      → r.locked_by ≡ some worker
      → find (held work worker) rs ≡ some r
  find-held [] r h l = cc
  find-held (q ∷ rs) r h l = ground (arith, find-held rs r)

  find-held_absent :
      (rs : List WorkRow) → find (has_work work) rs ≡ none → find (held work worker) rs ≡ none
  find-held_absent [] h = refl
  find-held_absent (q ∷ rs) h = ground (arith, find-held_absent rs)

  pub find-not_held :
      (rs : List WorkRow) (r : WorkRow)
      → Unique rs
      → find (has_work work) rs ≡ some r
      → r.locked_by ≢ some worker
      → find (held work worker) rs ≡ none
  find-not_held [] r u h l = refl
  find-not_held (q ∷ rs) r (fresh, u) h l = elim (string_eq.dec q.work_id work) [
    | yes p ↦ ground (arith, find-held_absent rs (rw p at fresh))
    | no p ↦ ground (arith, find-not_held rs r u)
  ]

  pub update-none :
      (f : WorkRow → WorkRow) (rs : List WorkRow)
      → find (held work worker) rs ≡ none
      → update_where (held work worker) f rs ≡ rs
  update-none f [] h = refl
  update-none f (q ∷ rs) h = ground (arith, update-none f rs)

  -- The row that a worker holds is the row of its id.
  pub held_row :
      (rs : List WorkRow) (r : WorkRow)
      → Unique rs
      → find (held work worker) rs ≡ some r
      → find (has_work work) rs ≡ some r
  held_row [] r u h = cc
  held_row (q ∷ rs) r (fresh, u) h = elim (string_eq.dec q.work_id work) [
    | yes p ↦ ground (arith, h, p, find-held_absent rs (rw p at fresh))
    | no p ↦ ground (arith, held_row rs r u)
  ]
