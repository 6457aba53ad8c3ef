-- ===== src/Batch/Act.antt =====
-- Steps on a state that may raise and that keep what was written before they raised, as Python does.
pub mod Laws
use edctranslation_public.Prelude.{String}
use edctranslation_public.Prelude.Errors.{Result, ok, err, Exception}

-- What ends a step of a batch: a missing file, an exception of the program's own, or one of the
-- libraries and services, given by its text.
pub data BatchError : Type 0 where
  file_not_found : String → BatchError
  raised : Exception → BatchError
  foreign : String → BatchError

abbrev pub Act : Type 0 → Type 0 → Type 0
Act S A = S → Result BatchError A × S

abbrev pub continue :
    {S A B : Type 0} → Result BatchError A × S → (A → Act S B) → Result BatchError B × S
continue (ok a, s) f = f a s
continue (err e, s) f = (err e, s)

infixl 5 ◌>>=◌ ◌>>◌
-- Shut in proofs, which go by the rules of `After`.
unfoldable pub ◌>>=◌ : {S A B : Type 0} → Act S A → (A → Act S B) → Act S B
◌>>=◌ m f s = continue (m s) f

abbrev pub ◌>>◌ : {S A B : Type 0} → Act S A → Act S B → Act S B
m >> k = m >>= λ _. k

unfoldable pub pure : {S A : Type 0} → A → Act S A
pure a s = (ok a, s)

unfoldable pub raise : {S A : Type 0} → BatchError → Act S A
raise e s = (err e, s)

-- A computation that writes nothing.
unfoldable pub reading : {S A : Type 0} → (S → Result BatchError A) → Act S A
reading f s = (f s, s)

abbrev pub handle :
    {S A : Type 0} → Result BatchError A × S → (BatchError → Act S A) → Result BatchError A × S
handle (ok a, s) h = (ok a, s)
handle (err e, s) h = h e s

-- `try: m` with `except Exception as exc: h(exc)`
unfoldable pub attempt : {S A : Type 0} → Act S A → (BatchError → Act S A) → Act S A
attempt m h s = handle (m s) h
