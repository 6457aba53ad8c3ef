-- ===== src/Routing/Choice.antt =====
-- Which engine automatic routing selects, and what its candidates say.
use edctranslation_public.Prelude.{
  String, ◌≡◌, refl, sym, ◌∙◌, ap, Bool, true, false, ◌&&◌, not, Option, none, some, List, [], ◌∷◌,
  ◌++◌, map, ◌==◌, string_eq, keep, Bool-cases, Option-cases, inl, inr, arith, if◌then◌else◌,
}
use edctranslation_public.Prelude.Dict
use edctranslation_public.Prelude.Dict.{Dict}
use edctranslation_public.Routing.{
  Engine, Environment, EngineRoutingPolicy, Candidate, member, unseen, ordered_auto_engine_ids,
  default_auto_engine_ids, supports_pair, is_nc_licensed, engine_availability, candidate_base,
  consider, consider_all, take_place, diagnose_auto_route,
}

-- The ids that the loop has before it, less those seen, each once.
unseen-member :
    (seen ids : List String) (id : String)
    → member id (unseen seen ids) ≡ (member id ids && not (member id seen))
unfolding unseen
unseen-member seen [] id = refl
unseen-member seen (x ∷ ids) id = elim (string_eq.dec id x) [
  | yes e ↦ ground (arith, e, unseen-member seen ids id, unseen-member (x ∷ seen) ids id)
  | no n ↦ ground (arith, n, unseen-member seen ids id, unseen-member (x ∷ seen) ids id)
]

abbrev pub IsDistinct : List String → Type 0
IsDistinct [] = Unit
IsDistinct (x ∷ xs) = (member x xs ≡ false) × IsDistinct xs

unseen-IsDistinct : (seen ids : List String) → IsDistinct (unseen seen ids)
unfolding unseen
unseen-IsDistinct seen [] = tt
unseen-IsDistinct seen (x ∷ ids) = elim (Bool-cases (member x seen)) [
  | inl old ↦ rw old (unseen-IsDistinct seen ids)
  | inr new ↦
      rw new (unseen-member (x ∷ seen) ids x ∙ ground arith, unseen-IsDistinct (x ∷ seen) ids)
]

-- A list without the repetitions of what stands before.
abbrev pub distinct : List String → List String
distinct [] = []
distinct (x ∷ xs) = x ∷ keep (λ y. not (y == x)) (distinct xs)

keep-keep :
    (p q r : String → Bool) (xs : List String)
    → ((x : String) → r x ≡ (q x && p x))
    → keep p (keep q xs) ≡ keep r xs
keep-keep p q r [] h = refl
keep-keep p q r (x ∷ xs) h = ground (arith, h x, keep-keep p q r xs h)

unseen-distinct :
    (seen ids : List String) → unseen seen ids ≡ keep (λ y. not (member y seen)) (distinct ids)
unfolding unseen
unseen-distinct seen [] = refl
unseen-distinct seen (x ∷ ids) = elim (Bool-cases (member x seen)) [
  | inl old ↦ rw old (
      unseen-distinct seen ids
      ∙ sym (
          keep-keep (λ y. not (member y seen)) (λ y. not (y == x)) (λ y. not (member y seen))
            (distinct ids)
            λ y. elim (string_eq.dec y x) [
              | yes e ↦ rw e (rw old (ground arith))
              | no n ↦ ground (arith, n)
            ]))
  | inr new ↦ rw new (
      ap (◌∷◌ x) (
        unseen-distinct (x ∷ seen) ids
        ∙ sym (
            keep-keep (λ y. not (member y seen)) (λ y. not (y == x))
              (λ y. not (member y (x ∷ seen))) (distinct ids) λ y. ground arith)))
]

keep-all : (xs : List String) → keep (λ y. not (member y [])) xs ≡ xs
keep-all [] = refl
keep-all (x ∷ xs) = ap (◌∷◌ x) (keep-all xs)

and-true : (b : Bool) → (b && true) ≡ b
and-true true = refl
and-true false = refl

module _ (env : Environment) (registry : Dict String Engine) (policy : EngineRoutingPolicy)
    (source target : String) where
  -- An engine may be chosen if it is registered, supports the pair, has a license that the policy
  -- allows, and is configured.
  abbrev pub may_serve : String → Bool
  may_serve id = elim (Dict.lookup id registry) [
    | none ↦ false
    | some e ↦
        supports_pair env e source target
        && (not (is_nc_licensed env e && not policy.allow_nc_licensed)
            && (engine_availability env e).available)
  ]

  abbrev pub first_of : List String → Option String
  first_of [] = none
  first_of (id ∷ ids) = if may_serve id then some id else first_of ids

  abbrev pub or_else : Option String → Option String → Option String
  or_else none o = o
  or_else (some s) o = some s

  abbrev pub ids_of : List Candidate → List String
  ids_of cs = map (λ (c : Candidate). c.id) cs

  abbrev pub unset : Option String → Bool
  unset none = true
  unset (some s) = false

  -- What a turn of the loop says of its candidate, and what it makes of the selection.
  abbrev Turn : String → Option String → Bool → Candidate × Option String → Type 0
  Turn id selected serves (c, after) =
      (c.id ≡ id)
      × (c.eligible ≡ serves)
      × (c.selected ≡ (serves && unset selected))
      × (after ≡ or_else selected (if serves then some id else none))

  or_else-none : (o : Option String) → or_else o none ≡ o
  or_else-none none = refl
  or_else-none (some s) = refl

  placed-Turn :
      (id : String) (selected : Option String) (c : Candidate)
      → c.id ≡ id
      → c.selected ≡ false
      → Turn id selected true (take_place env registry policy source target c selected)
  placed-Turn id none c i s = (i, refl, refl, ap some i)
  placed-Turn id (some t) c i s = (i, refl, s, refl)

  consider-Turn :
      (id : String) (selected : Option String)
      → Turn id selected (may_serve id) (consider env registry policy source target id selected)
  unfolding consider candidate_base
  consider-Turn id selected = elim (Option-cases (Dict.lookup id registry)) [
    | inl h ↦ rw (h, consider, may_serve) (refl, refl, refl, sym (or_else-none selected))
    | inr (e, h) ↦ elim (Bool-cases (supports_pair env e source target)) [
      | inr s ↦ rw (h, s, consider, may_serve) (refl, refl, refl, sym (or_else-none selected))
      | inl s ↦ elim (Bool-cases (is_nc_licensed env e && not policy.allow_nc_licensed)) [
        | inl l ↦ rw (h, s, l, consider, may_serve) (refl, refl, refl, sym (or_else-none selected))
        | inr l ↦ elim (Bool-cases (engine_availability env e).available) [
          | inr a ↦
              rw (h, s, l, a, consider, may_serve) (refl, refl, refl, sym (or_else-none selected))
          | inl a ↦
              rw (h, s, l, a, consider, may_serve)
                (placed-Turn id selected (candidate_base env id e) refl refl)
        ]
      ]
    ]
  ]

  or_else_step :
      (selected : Option String) (b : Bool) (id : String) (rest : Option String)
      → or_else (or_else selected (if b then some id else none)) rest
        ≡ or_else selected (if b then some id else rest)
  or_else_step none true id rest = refl
  or_else_step none false id rest = refl
  or_else_step (some s) b id rest = refl

  abbrev pub listed : Option String → List String
  listed none = []
  listed (some s) = s ∷ []

  -- The candidates that are marked as selected, where a selection may have been made before them.
  abbrev newly : Option String → Option String → List String
  newly none last = listed last
  newly (some s) last = []

  abbrev pub marked : List Candidate → List String
  marked cs = ids_of (keep (λ (c : Candidate). c.selected) cs)

  marked-step :
      (selected : Option String) (b : Bool) (id : String) (after last rest : Option String)
      (c : Candidate) (cs : List Candidate)
      → c.id ≡ id
      → c.selected ≡ (b && unset selected)
      → after ≡ or_else selected (if b then some id else none)
      → last ≡ or_else after rest
      → marked cs ≡ newly after last
      → marked (c ∷ cs) ≡ newly selected last
  marked-step none true id after last rest c cs i s a l m = rw (s, i, m, l, a) refl
  marked-step none false id after last rest c cs i s a l m = rw (s, m, a) refl
  marked-step (some t) true id after last rest c cs i s a l m = rw (s, m, a) refl
  marked-step (some t) false id after last rest c cs i s a l m = rw (s, m, a) refl

  -- The whole loop: a candidate for each id in order, eligible just where it may serve, the first
  -- that may serve is selected unless one was before, and it alone is marked.
  abbrev Considered : List String → Option String → List Candidate × Option String → Type 0
  Considered ids selected (cs, last) =
      (ids_of cs ≡ ids)
      × (map (λ (c : Candidate). c.eligible) cs ≡ map may_serve ids)
      × (last ≡ or_else selected (first_of ids))
      × (marked cs ≡ newly selected last)

  consider_all-Considered :
      (ids : List String) (selected : Option String)
      → Considered ids selected (consider_all env registry policy source target ids selected)
  unfolding consider_all
  consider_all-Considered [] none = (refl, refl, refl, refl)
  consider_all-Considered [] (some s) = (refl, refl, refl, refl)
  consider_all-Considered (id ∷ ids) selected =
      let (i, e, s, a) = consider-Turn id selected in
      let (is, es, l, ms) =
        consider_all-Considered ids (consider env registry policy source target id selected).1 in
      (
        rw (i, is) refl,
        rw (e, es) refl,
        rw (l, a) (or_else_step selected (may_serve id) id (first_of ids)),
        marked-step selected (may_serve id) id _ _ (first_of ids) _
            (consider_all env registry policy source target ids
              (consider env registry policy source target id selected).1).0
            i s a l ms,
      )

  -- Where the two languages differ, the diagnosis has one candidate for each id in the order of
  -- preference, each eligible just where its engine may serve; the first that may serve is selected,
  -- and just the candidate of the selected engine is marked. The ids are those that the policy
  -- prefers and then the default ones, each where it stands first.
  pub diagnose-selects :
      (source == target) ≡ false
      → let d = diagnose_auto_route env registry policy source target in
        let ids = ordered_auto_engine_ids policy in
        (d.selected_provider_id ≡ first_of ids)
        × (ids_of d.candidates ≡ ids)
        × (map (λ (c : Candidate). c.eligible) d.candidates ≡ map may_serve ids)
        × (marked d.candidates ≡ listed d.selected_provider_id)
        × (ids ≡ distinct (policy.preferred_engine_ids ++ default_auto_engine_ids))
        × IsDistinct ids
        × ((id : String)
            → member id ids ≡ member id (policy.preferred_engine_ids ++ default_auto_engine_ids))
  unfolding diagnose_auto_route ordered_auto_engine_ids
  diagnose-selects differ =
      let ids = ordered_auto_engine_ids policy in
      let (is, es, l, ms) = consider_all-Considered ids none in
      rw (differ, diagnose_auto_route)
        (
          l,
          is,
          es,
          ms,
          unseen-distinct [] _ ∙ keep-all _,
          unseen-IsDistinct [] _,
          λ id. unseen-member [] _ id ∙ and-true _,
        )
