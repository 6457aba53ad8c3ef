-- ===== src/Kafka/Reassembly/Report.antt =====
-- What a reassembly plan reports of the results that came in.
use edctranslation_public.Prelude.{
  String, ◌≡◌, refl, sym, ◌∙◌, Bool, true, false, ◌&&◌, Option, none, some, List, [], ◌∷◌, keep,
  All, arith, ◌==◌, string_eq, Bool-cases, Option-cases, inl, inr, if◌then◌else◌,
}
use edctranslation_public.Prelude.Dict
use edctranslation_public.Prelude.Dict.{Dict}
use edctranslation_public.Kafka.Text.{sorted, place}
use edctranslation_public.Kafka.Messages.{TranslationResultMessage}
use edctranslation_public.Kafka.Reassembly.{
  collect_one, collect, absent, is_empty, same, failed_ids, reassembly_plan,
}

-- Whether a result is one of the segment of the job.
abbrev pub answers : String → String → TranslationResultMessage → Bool
answers job id r = elim r.segment_id [ none ↦ false | some s ↦ id == s && r.job_id == job ]

-- The last result of a segment of the job.
abbrev pub latest :
    String → String → List TranslationResultMessage → Option TranslationResultMessage
latest job id [] = none
latest job id (r ∷ rs) = elim (latest job id rs) [
  | some q ↦ some q
  | none ↦ if answers job id r then some r else none
]

lookup-collect_one :
    (job id : String) (r : TranslationResultMessage) (d : Dict String TranslationResultMessage)
    → Dict.lookup id (collect_one job r d) ≡ (if answers job id r then some r else Dict.lookup id d)
unfolding collect_one
lookup-collect_one job id r d = elim (Option-cases r.segment_id) [
  | inl h ↦ rw (h, collect_one) refl
  | inr (s, h) ↦ rw (h, collect_one) (ground (arith, Dict.lookup-insert id s r d))
]

lookup-collect :
    (job id : String) (rs : List TranslationResultMessage)
    (d : Dict String TranslationResultMessage)
    → Dict.lookup id (collect job rs d)
      ≡ elim (latest job id rs) [ some q ↦ some q | none ↦ Dict.lookup id d ]
unfolding collect
lookup-collect job id [] d = refl
lookup-collect job id (r ∷ rs) d =
    lookup-collect job id rs (collect_one job r d) ∙ ground (arith, lookup-collect_one job id r d)

place_not_empty : (x : String) (xs : List String) → is_empty (place same x xs) ≡ false
place_not_empty x [] = refl
place_not_empty x (y ∷ ys) = ground arith

sorted_empty : (xs : List String) → is_empty (sorted same xs) ≡ true → xs ≡ []
sorted_empty [] h = refl
sorted_empty (x ∷ xs) h = absurd (cc (place_not_empty x (sorted same xs), h))

-- Where no id has failed, each result in the dict is a success.
none_failed :
    (id : String) (r : TranslationResultMessage) (d : Dict String TranslationResultMessage)
    → failed_ids d ≡ []
    → Dict.lookup id d ≡ some r
    → (r.status == "succeeded") ≡ true
unfolding failed_ids
none_failed id r [] h l = absurd (cc (Dict.lookup-nil id, l))
none_failed id r ((k, q) ∷ d) h l = elim (Bool-cases (q.status == "succeeded")) [
  | inr n ↦ absurd (cc (rw (n, failed_ids) at h))
  | inl y ↦ elim (Bool-cases (id == k)) [
    | inl e ↦
        let found : some q ≡ some r = sym (Dict.lookup-cons id k q d ∙ rw e refl) ∙ l in
        cc (found, y)
    | inr e ↦
        none_failed id r d (rw (y, failed_ids) at h)
          (sym (Dict.lookup-cons id k q d ∙ rw e refl) ∙ l)
  ]
]

keep_empty : (p : String → Bool) (xs : List String) → keep p xs ≡ [] → All (λ x. p x ≡ false) xs
keep_empty p [] h = tt
keep_empty p (x ∷ xs) h = elim (Bool-cases (p x)) [
  | inl y ↦ absurd (cc (rw y at h))
  | inr n ↦ (n, keep_empty p xs (rw n at h))
]

is_empty_lem : (xs : List String) → is_empty xs ≡ true → xs ≡ []
is_empty_lem [] h = refl
is_empty_lem (x ∷ xs) h = absurd (cc h)

both : (a b : Bool) → (a && b) ≡ true → (a ≡ true) × (b ≡ true)
both true b h = (refl, h)
both false b h = absurd (cc h)

module _ (job : String) (results : List TranslationResultMessage) where
  lookup-latest : (id : String) → Dict.lookup id (collect job results []) ≡ latest job id results
  unfolding Dict.lookup
  lookup-latest id = lookup-collect job id results [] ∙ by_latest (latest job id results)
    where
      by_latest :
          (o : Option TranslationResultMessage)
          → (elim o as (λ x. Option TranslationResultMessage) [ some q ↦ some q | none ↦ none ]) ≡ o
      by_latest none = refl
      by_latest (some q) = refl

  -- A segment whose last result is a success.
  abbrev pub IsDone : String → Type 0
  IsDone id =
      (r : TranslationResultMessage) × (latest job id results ≡ some r)
      × ((r.status == "succeeded") ≡ true)

  keep-latest :
      (ids : List String)
      → keep (λ id. absent (Dict.lookup id (collect job results []))) ids
        ≡ keep (λ id. absent (latest job id results)) ids
  keep-latest [] = refl
  keep-latest (id ∷ ids) = rw (lookup-latest id, keep-latest ids) refl

  latest-IsDone :
      (id : String)
      → absent (latest job id results) ≡ false
      → failed_ids (collect job results []) ≡ []
      → IsDone id
  latest-IsDone id a f = elim (Option-cases (latest job id results)) [
    | inl h ↦ absurd (cc (rw h at a))
    | inr (r, h) ↦ (r, h, none_failed id r (collect job results []) f (lookup-latest id ∙ h))
  ]

  All-IsDone :
      (ids : List String)
      → All (λ id. absent (latest job id results) ≡ false) ids
      → failed_ids (collect job results []) ≡ []
      → All IsDone ids
  All-IsDone [] h f = tt
  All-IsDone (id ∷ ids) (a, h) f = (latest-IsDone id a f, All-IsDone ids h f)

  -- The plan lists as missing just the expected segments that no result of the job answers, in their
  -- order.
  pub reassembly_plan-missing :
      (expected : List String)
      → (reassembly_plan job expected results).missing_segments
        ≡ keep (λ id. absent (latest job id results)) expected
  unfolding reassembly_plan
  reassembly_plan-missing expected = keep-latest expected

  -- When the plan is ready, the last result of every expected segment is a success.
  pub reassembly_plan-ready :
      (expected : List String)
      → (reassembly_plan job expected results).ready ≡ true
      → All IsDone expected
  unfolding reassembly_plan
  reassembly_plan-ready expected ready =
      let (m, f) = both _ _ ready in
      All-IsDone expected (keep_empty _ expected (sym (keep-latest expected) ∙ is_empty_lem _ m))
        (sorted_empty _ f)
