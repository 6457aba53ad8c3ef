-- ===== src/Batch/Act/Laws.antt =====
-- What holds after a step, whether it ends or raises, and the rules for the steps' compositions.
use edctranslation_public.Prelude.Errors.{Result, ok, err}
use edctranslation_public.Batch.Act.{BatchError, Act, continue, handle, attempt, ◌>>=◌}

-- `Q` of the result and the state, or `E` of the state that a failure leaves.
abbrev pub After :
    {S A : Type 0} → Result BatchError A × S → (A → S → Type 0) → (S → Type 0) → Type 0
After (ok a, s) Q E = Q a s
After (err e, s) Q E = E s

continue-After :
    {S A B : Type 0} (Q : A → S → Type 0) (R : B → S → Type 0) (E : S → Type 0)
    (r : Result BatchError A × S) (f : A → Act S B)
    → After r Q E
    → ((a : A) (s : S) → Q a s → After (f a s) R E)
    → After (continue r f) R E
continue-After Q R E (ok a, s) f h k = k a s h
continue-After Q R E (err e, s) f h k = h

pub bind-After :
    {S A B : Type 0} (Q : A → S → Type 0) (R : B → S → Type 0) (E : S → Type 0) (m : Act S A)
    (f : A → Act S B) (s : S)
    → After (m s) Q E
    → ((a : A) (s : S) → Q a s → After (f a s) R E)
    → After ((m >>= f) s) R E
unfolding ◌>>=◌
bind-After Q R E m f s h k = continue-After Q R E (m s) f h k

handle-After :
    {S A : Type 0} (Q : A → S → Type 0) (E F : S → Type 0) (r : Result BatchError A × S)
    (h : BatchError → Act S A)
    → After r Q E
    → ((e : BatchError) (s : S) → E s → After (h e s) Q F)
    → After (handle r h) Q F
handle-After Q E F (ok a, s) h p k = p
handle-After Q E F (err e, s) h p k = k e s p

pub attempt-After :
    {S A : Type 0} (Q : A → S → Type 0) (E F : S → Type 0) (m : Act S A) (h : BatchError → Act S A)
    (s : S)
    → After (m s) Q E
    → ((e : BatchError) (s : S) → E s → After (h e s) Q F)
    → After (attempt m h s) Q F
unfolding attempt
attempt-After Q E F m h s p k = handle-After Q E F (m s) h p k

pub weaken-After :
    {S A : Type 0} (Q R : A → S → Type 0) (E F : S → Type 0) (r : Result BatchError A × S)
    → After r Q E
    → ((a : A) (s : S) → Q a s → R a s)
    → ((s : S) → E s → F s)
    → After r R F
weaken-After Q R E F (ok a, s) h k l = k a s h
weaken-After Q R E F (err e, s) h k l = l s h
