-- ===== src/Review/Numbers.antt =====
-- The numbers in the ids of edc_translation/review.py: different numbers have different texts.
use edctranslation_public.Prelude.{
  ℕ, zero, suc, ◌+◌, ◌-◌, ◌*◌, ◌/◌, ◌%◌, ◌≤◌, ◌<◌, String, ◌<>◌, ◌≡◌, refl, sym, ap, ◌∙◌, ◌==◌,
  nat_eq, Bool-cases, inl, inr, ==_iff, arith,
}
use Prim.Native.Char.{code}
use text.Mathlib.TextLemmas.{nil-append, cons-append, append_cancel_left}
use edctranslation_public.Kafka.Text.{digit, decimal, padded}
use edctranslation_public.Review.{review_id_of}

-- The number that decimal digits stand for, after those that are read.
abbrev number : ℕ → String → ℕ
number n String.[] = n
number n (String.◌∷◌ c s) = number (n * 10 + (code c - 48)) s

number-append : (n : ℕ) (s t : String) → number n (s <> t) ≡ number (number n s) t
number-append n String.[] t = ap (number n) (nil-append t)
number-append n (String.◌∷◌ c s) t =
    ap (number n) (cons-append c s t) ∙ number-append (n * 10 + (code c - 48)) s t

number-digit : (n d : ℕ) → d < 10 → number n (digit d) ≡ n * 10 + d
unfolding nat_eq
number-digit n zero h = refl
number-digit n (suc zero) h = refl
number-digit n (suc (suc zero)) h = refl
number-digit n (suc (suc (suc zero))) h = refl
number-digit n (suc (suc (suc (suc zero)))) h = refl
number-digit n (suc (suc (suc (suc (suc zero))))) h = refl
number-digit n (suc (suc (suc (suc (suc (suc zero)))))) h = refl
number-digit n (suc (suc (suc (suc (suc (suc (suc zero))))))) h = refl
number-digit n (suc (suc (suc (suc (suc (suc (suc (suc zero)))))))) h = refl
number-digit n (suc (suc (suc (suc (suc (suc (suc (suc (suc zero))))))))) h = refl
number-digit n (suc (suc (suc (suc (suc (suc (suc (suc (suc (suc d)))))))))) h =
    absurd (omega (arith, h))

number-last :
    (front : String) (n : ℕ) → number 0 front ≡ n / 10 → number 0 (front <> digit (n % 10)) ≡ n
number-last front n h =
    number-append 0 front (digit (n % 10))
    ∙ ap (λ m. number m (digit (n % 10))) h
    ∙ number-digit (n / 10) (n % 10) (omega arith)
    ∙ omega arith

number-decimal : (fuel n : ℕ) → n ≤ fuel → number 0 (decimal fuel n) ≡ n
number-decimal zero n h = omega (arith, h)
number-decimal (suc fuel) n h = elim (Bool-cases (n == 0)) [
  | inl y ↦ rw (y) (sym ((==_iff n 0).0 y))
  | inr p ↦
      rw (p)
        (number-last (decimal fuel (n / 10)) n (number-decimal fuel (n / 10) (omega (arith, h))))
]

number-padded : (w n : ℕ) → number 0 (padded w n) ≡ n
number-padded zero n = number-decimal n n (omega arith)
number-padded (suc w) n = number-last (padded w (n / 10)) n (number-padded w (n / 10))

-- Reviews with one id have one number.
pub review_id_of-injective : (m n : ℕ) → review_id_of m ≡ review_id_of n → m ≡ n
review_id_of-injective m n h =
    sym (number-padded 6 m)
    ∙ ap (number 0) (append_cancel_left "review_" (padded 6 m) (padded 6 n) h)
    ∙ number-padded 6 n
