-- ===== src/Auth/Times.antt =====
-- Python's integers as the times and spans of edc_translation/auth.py: their sum and order.
use edctranslation_public.Prelude.{◌≡◌, Bool, true, false, suc, ◌+◌, ◌-◌, ltb, if◌then◌else◌, arith}
use edctranslation_public.Json.{ℤ, pos, negsuc}

infixl 60 ◌+ℤ◌
unfoldable pub ◌+ℤ◌ : ℤ → ℤ → ℤ
pos a +ℤ pos b = pos (a + b)
pos a +ℤ negsuc b = if ltb b a then pos (a - suc b) else negsuc (b - a)
negsuc a +ℤ pos b = if ltb a b then pos (b - suc a) else negsuc (a - b)
negsuc a +ℤ negsuc b = negsuc (suc (a + b))

-- `a < b`
abbrev pub before : ℤ → ℤ → Bool
before (pos a) (pos b) = ltb a b
before (pos a) (negsuc b) = false
before (negsuc a) (pos b) = true
before (negsuc a) (negsuc b) = ltb b a

-- What is not before a time is not before it later either.
pub before-later : (e t u : ℤ) → before t e ≡ false → before u t ≡ false → before u e ≡ false
before-later (pos e) (pos t) (pos u) h l = ground arith
before-later (pos e) (pos t) (negsuc u) h l = ground arith
before-later (pos e) (negsuc t) u h l = ground arith
before-later (negsuc e) (pos t) (pos u) h l = ground arith
before-later (negsuc e) (pos t) (negsuc u) h l = ground arith
before-later (negsuc e) (negsuc t) (pos u) h l = ground arith
before-later (negsuc e) (negsuc t) (negsuc u) h l = ground arith
