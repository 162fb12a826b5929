-- ===== src/Exec/Triple.antt =====
-- Correctness of coroutines with two postconditions: one for the returned value, one for the exception.
use transpose.Exec.{Outcome, ok, raised, Exec, ◌>>=◌, attempt, pure, resume, handle}

module _ {E S A : Type 0} where
  abbrev pub Ends : (A → S → Type 0) → (E → S → Type 0) → Outcome E A × S → Type 0
  Ends Q R (ok a, s) = Q a s
  Ends Q R (raised e, s) = R e s

  -- From a state with `P`, `m` returns into `Q` or raises into `R`.
  pub record Triple (P : S → Type 0) (m : Exec E S A) (Q : A → S → Type 0) (R : E → S → Type 0)
      : Type 0 where
    pub at : (s : S) → P s → Ends Q R (m s)

  pub Ends-weaken :
      {Q Q' : A → S → Type 0} {R R' : E → S → Type 0} (r : Outcome E A × S)
      → ((a : A) (s : S) → Q a s → Q' a s)
      → ((e : E) (s : S) → R e s → R' e s)
      → Ends Q R r
      → Ends Q' R' r
  Ends-weaken (ok a, s) q r h = q a s h
  Ends-weaken (raised e, s) q r h = r e s h

  pub Triple-weaken :
      {P P' : S → Type 0} {m : Exec E S A} {Q Q' : A → S → Type 0} {R R' : E → S → Type 0}
      → Triple P m Q R
      → ((s : S) → P' s → P s)
      → ((a : A) (s : S) → Q a s → Q' a s)
      → ((e : E) (s : S) → R e s → R' e s)
      → Triple P' m Q' R'
  Triple-weaken {m} {Q} {Q'} {R} {R'} t p q r = record {
    at = λ s h. Ends-weaken {Q = Q} {Q' = Q'} {R = R} {R' = R'} (m s) q r (t.at s (p s h));
  }

  pub Triple-pure :
      {P : S → Type 0} {Q : A → S → Type 0} {R : E → S → Type 0} (a : A)
      → ((s : S) → P s → Q a s)
      → Triple P (pure a) Q R
  Triple-pure a h = record { at = h }

module _ {E S A B : Type 0} {Q : A → S → Type 0} {Q' : B → S → Type 0} {R : E → S → Type 0} where
  Ends-resume :
      (r : Outcome E A × S) (f : A → Exec E S B)
      → Ends Q R r
      → ((a : A) → Triple (Q a) (f a) Q' R)
      → Ends Q' R (resume r f)
  Ends-resume (ok a, s) f h t = (t a).at s h
  Ends-resume (raised e, s) f h t = h

  pub Triple-bind :
      {P : S → Type 0} {m : Exec E S A} {f : A → Exec E S B}
      → Triple P m Q R
      → ((a : A) → Triple (Q a) (f a) Q' R)
      → Triple P (m >>= f) Q' R
  unfolding ◌>>=◌
  Triple-bind {m} {f} t u = record { at = λ s h. Ends-resume (m s) f (t.at s h) u }

module _ {E S A : Type 0} {Q : A → S → Type 0} {R R' : E → S → Type 0} where
  Ends-handle :
      (r : Outcome E A × S) (h : E → Exec E S A)
      → Ends Q R r
      → ((e : E) → Triple (R e) (h e) Q R')
      → Ends Q R' (handle r h)
  Ends-handle (ok a, s) h q t = q
  Ends-handle (raised e, s) h q t = (t e).at s q

  pub Triple-attempt :
      {P : S → Type 0} {m : Exec E S A} {h : E → Exec E S A}
      → Triple P m Q R
      → ((e : E) → Triple (R e) (h e) Q R')
      → Triple P (attempt m h) Q R'
  unfolding attempt
  Triple-attempt {m} {h} t u = record { at = λ s p. Ends-handle (m s) h (t.at s p) u }

-- A condition that `m` keeps, whichever way it ends.
abbrev pub Keeps : {E S A : Type 0} → (S → Type 0) → Exec E S A → Type 0
Keeps P m = Triple P m (λ _. P) (λ _. P)

module _ {E S : Type 0} {P : S → Type 0} where
  pub Keeps-bind :
      {A B : Type 0} {m : Exec E S A} {f : A → Exec E S B}
      → Keeps P m
      → ((a : A) → Keeps P (f a))
      → Keeps P (m >>= f)
  Keeps-bind = Triple-bind
