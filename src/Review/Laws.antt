-- ===== src/Review/Laws.antt =====
-- What `list` of edc_translation/review.py shows after calls of `add`, one after the other.
use edctranslation_public.Prelude.{
  ℕ, suc, ◌+◌, ◌<◌, String, ◌≡◌, refl, sym, ap, ◌∙◌, Option, none, List, [], ◌∷◌, ◌++◌, append-nil,
  append_assoc, length, length-append, ◌==◌, string_eq, Bool-cases, inl, inr, ==_iff, arith,
}
use edctranslation_public.Prelude.Dict
use edctranslation_public.Review.{
  ReviewDecision, Decisions, Request, review_id_of, decision_of, add, of_job, list_reviews,
}
use edctranslation_public.Review.Numbers.{review_id_of-injective}

-- The keys are the ids of the numbers that follow `k`.
abbrev pub Numbered : ℕ → Decisions → Type 0
Numbered k [] = Unit
Numbered k ((id, r) ∷ d) = (id ≡ review_id_of (suc k)) × Numbered (suc k) d

later_id-fresh :
    (k n : ℕ) (d : Decisions)
    → Numbered k d
    → k + length d < n
    → Dict.lookup (review_id_of n) d ≡ none
unfolding Dict.lookup
later_id-fresh k n [] h l = refl
later_id-fresh k n ((id, r) ∷ d) (e, h) l = elim (Bool-cases (review_id_of n == id)) [
  | inl y ↦
      let same : n ≡ suc k =
        review_id_of-injective n (suc k) ((==_iff (review_id_of n) id).0 y ∙ e) in
      absurd (omega (arith, same, l))
  | inr o ↦ rw (o) (later_id-fresh (suc k) n d h (omega (arith, l)))
]

append-Numbered :
    (k n : ℕ) (d : Decisions) (r : ReviewDecision)
    → Numbered k d
    → n ≡ suc (k + length d)
    → Numbered k (d ++ (review_id_of n, r) ∷ [])
append-Numbered k n [] r h p = (ap review_id_of (omega (arith, p)), tt)
append-Numbered k n (_ ∷ d) r (e, h) p = (e, append-Numbered (suc k) n d r h (omega (arith, p)))

-- Calls of `add`, one after the other.
abbrev pub add_all : List Request → Decisions → Decisions
add_all [] d = d
add_all (r ∷ rs) d = add_all rs (add r d).1

-- The decisions that requests ask for, numbered from the one after `n`.
abbrev pub numbered : ℕ → List Request → List ReviewDecision
numbered n [] = []
numbered n (r ∷ rs) = decision_of (suc n) r ∷ numbered (suc n) rs

add-appends :
    (r : Request) (d : Decisions)
    → Numbered 0 d
    → (add r d).1 ≡ d ++ (review_id_of (suc (length d)), decision_of (suc (length d)) r) ∷ []
unfolding add
add-appends r d h =
    Dict.insert-new (review_id_of (suc (length d))) (decision_of (suc (length d)) r) d
      (later_id-fresh 0 (suc (length d)) d h (omega arith))

values-append : (d e : Decisions) → Dict.values (d ++ e) ≡ Dict.values d ++ Dict.values e
values-append [] e = refl
values-append (_ ∷ d) e = rw (values-append d e) refl

values-add_all :
    (rs : List Request) (d : Decisions)
    → Numbered 0 d
    → Dict.values (add_all rs d) ≡ Dict.values d ++ numbered (length d) rs
values-add_all [] d h = sym (append-nil (Dict.values d))
values-add_all (r ∷ rs) d h =
    let n = suc (length d) in
    let added = (review_id_of n, decision_of n r) ∷ [] in
    ap (λ c. Dict.values (add_all rs c)) (add-appends r d h)
    ∙ values-add_all rs (d ++ added) (append-Numbered 0 n d (decision_of n r) h (omega arith))
    ∙ ap (λ vs. vs ++ numbered (length (d ++ added)) rs) (values-append d added)
    ∙ append_assoc (Dict.values d) (decision_of n r ∷ []) (numbered (length (d ++ added)) rs)
    ∙ ap (λ m. Dict.values d ++ decision_of n r ∷ numbered m rs)
        (length-append d added ∙ omega arith)

-- However many reviews are added, one after the other, to a new repository, each of them is listed,
-- in the order of the calls and under the id of its number; with a job, just those of the job.
pub list_reviews-add_all :
    (job_id : Option String) (rs : List Request)
    → list_reviews job_id (add_all rs []) ≡ of_job job_id (numbered 0 rs)
unfolding list_reviews
list_reviews-add_all job_id rs = ap (of_job job_id) (values-add_all rs [] tt)
