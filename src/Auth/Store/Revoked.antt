-- ===== src/Auth/Store/Revoked.antt =====
-- The records that revocation leaves, and the calls that keep an id revoked.
use mathlib.Core.Option.{some-injective}
use edctranslation_public.Prelude.{
  String, ◌≡◌, ◌≢◌, refl, ap, ◌∙◌, false, some, List, [], ◌∷◌, map, ◌==◌, string_eq, if◌then◌else◌,
  Bool-cases, inl, inr, All, ==_iff,
}
use edctranslation_public.Prelude.Errors.{ok}
use edctranslation_public.Json.{ℤ}
use edctranslation_public.Auth.{Principal}
use edctranslation_public.Auth.Sets.{IsFrozenset}
use edctranslation_public.Auth.Tokens.{ApiTokenRecord, AuditEvent, is_active, principal_of}
use edctranslation_public.Auth.Store.{revoke_loop, revoked, with_used}
use edctranslation_public.Auth.Store.Laws.{HaveSets, others}
use edctranslation_public.Auth.Store.Authentication.{admitted}

abbrev pub revoke_one : String → ℤ → ApiTokenRecord → ApiTokenRecord
revoke_one id now r = if r.token_id == id then revoked now r else r

-- Whoever has this id is revoked.
abbrev pub Revoked : String → ApiTokenRecord → Type 0
Revoked id r = r.token_id ≡ id → (at : ℤ) × (r.revoked_at ≡ some at)

pub revoke_loop-map :
    (id : String) (now : ℤ) (rs : List ApiTokenRecord)
    → (revoke_loop id now rs).0 ≡ map (revoke_one id now) rs
unfolding revoke_loop
revoke_loop-map id now [] = refl
revoke_loop-map id now (r ∷ rs) = elim (Bool-cases (r.token_id == id)) [
  | inl y ↦ rw (y, revoke_loop) (ap (◌∷◌ (revoked now r)) (revoke_loop-map id now rs))
  | inr n ↦ rw (n, revoke_loop) (ap (◌∷◌ r) (revoke_loop-map id now rs))
]

pub revoke_one-HaveSets :
    (id : String) (now : ℤ) (rs : List ApiTokenRecord)
    → HaveSets rs
    → HaveSets (map (revoke_one id now) rs)
revoke_one-HaveSets id now [] h = tt
revoke_one-HaveSets id now (r ∷ rs) (h, hs) = elim (Bool-cases (r.token_id == id)) [
  | inl y ↦ rw y (h, revoke_one-HaveSets id now rs hs)
  | inr n ↦ rw n (h, revoke_one-HaveSets id now rs hs)
]

-- Revoking one id revokes its records and keeps every other revoked.
pub revoke_one-Revoked :
    (id other : String) (now : ℤ) (r : ApiTokenRecord)
    → Revoked other r
    → Revoked other (revoke_one id now r)
revoke_one-Revoked id other now r h = elim (Bool-cases (r.token_id == id)) [
  | inl y ↦ rw y (λ p. (now, refl))
  | inr n ↦ rw n h
]

pub revoke_one-Revoked_self :
    (id : String) (now : ℤ) (r : ApiTokenRecord) → Revoked id (revoke_one id now r)
revoke_one-Revoked_self id now r = elim (Bool-cases (r.token_id == id)) [
  | inl y ↦ rw y (λ q. (now, refl))
  | inr n ↦ rw n (λ q. absurd (cc (n, (==_iff r.token_id id).1 q)))
]

pub All-map :
    (P : ApiTokenRecord → Type 0) (f : ApiTokenRecord → ApiTokenRecord) (rs : List ApiTokenRecord)
    → ((r : ApiTokenRecord) → P r → P (f r))
    → All P rs
    → All P (map f rs)
All-map P f [] step h = tt
All-map P f (r ∷ rs) step (h, hs) = (step r h, All-map P f rs step hs)

pub revoke-All :
    (id : String) (now : ℤ) (rs : List ApiTokenRecord)
    → All (Revoked id) (map (revoke_one id now) rs)
revoke-All id now [] = tt
revoke-All id now (r ∷ rs) = (revoke_one-Revoked_self id now r, revoke-All id now rs)

pub with_used-Revoked :
    (id : String) (found : ApiTokenRecord) (now : ℤ) (rs : List ApiTokenRecord)
    → Revoked id found
    → All (Revoked id) rs
    → All (Revoked id) (with_used found now rs)
unfolding with_used
with_used-Revoked id found now [] f h = tt
with_used-Revoked id found now (r ∷ rs) f (h, hs) =
    elim (Bool-cases (r.token_id == found.token_id)) [
      | inl y ↦ rw y (f, with_used-Revoked id found now rs f hs)
      | inr n ↦ rw n (h, with_used-Revoked id found now rs f hs)
    ]

pub others-Revoked :
    (id other : String) (rs : List ApiTokenRecord)
    → All (Revoked id) rs
    → All (Revoked id) (others other rs)
others-Revoked id other [] h = tt
others-Revoked id other (r ∷ rs) (h, hs) = elim (Bool-cases (r.token_id == other)) [
  | inl y ↦ rw y (others-Revoked id other rs hs)
  | inr n ↦ rw n (h, others-Revoked id other rs hs)
]

pub inactive :
    (id : String) (now : ℤ) (r : ApiTokenRecord)
    → Revoked id r
    → r.token_id ≡ id
    → is_active now r ≡ false
unfolding is_active
inactive id now r h p = let (at, q) = h p in rw (q, is_active) refl

-- No revoked record admits its bearer.
pub admitted-Revoked :
    (id : String) (now : ℤ) (r : ApiTokenRecord) (p : Principal)
    → Revoked id r
    → admitted now r ≡ ok p
    → p.token_id ≢ some id
unfolding principal_of
admitted-Revoked id now r p h a e = elim (string_eq.dec r.token_id id) [
  | yes q ↦ absurd (cc (rw (inactive id now r h q) at a))
  | no n ↦ elim (Bool-cases (is_active now r)) [
    | inr i ↦ absurd (cc (rw i at a))
    | inl y ↦
        let same : principal_of r ≡ p = cc (rw y at a) in
        n (some-injective r.token_id id (ap (λ x. x.token_id) same ∙ e))
  ]
]

-- A later call of the store.
pub data Call : Type 0 where
  authenticate : String → ℤ → Call
  revoke : String → Principal → ℤ → Call
  store : ApiTokenRecord → Call
  log : AuditEvent → Call

-- A call that stores no token under an id: no record is saved under it again.
abbrev pub Keeps : String → Call → Type 0
Keeps id (authenticate token now) = Unit
Keeps id (revoke other by now) = Unit
Keeps id (store r) = (r.token_id ≢ id) × IsFrozenset r.scopes
Keeps id (log event) = Unit
