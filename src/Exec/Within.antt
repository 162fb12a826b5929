-- ===== src/Exec/Within.antt =====
-- How much a program can add to a measure of the state, whether it returns or raises.
use transpose.Prelude.{ℕ, ◌+◌, ◌≤◌, Bool, true, false, arith, if◌then◌else◌}
use transpose.Exec.{Outcome, ok, raised, Exec, pure, raise, resume, handle, attempt, ◌>>=◌}

pub record Within {E S A : Type 0} (measure : S → ℕ) (k : ℕ) (m : Exec E S A) : Type 0 where
  pub at : (s : S) → measure (m s).1 ≤ measure s + k

module _ {E S A : Type 0} {measure : S → ℕ} where
  pub Within-pure : {k : ℕ} (a : A) → Within {E = E} measure k (pure a)
  Within-pure a = record { at = λ s. omega arith }

  pub Within-raise : {k : ℕ} (e : E) → Within {A = A} measure k (raise e)
  Within-raise e = record { at = λ s. omega arith }

  pub Within-more : {j k : ℕ} {m : Exec E S A} → j ≤ k → Within measure j m → Within measure k m
  Within-more le h = record { at = λ s. omega (arith, le, h.at s) }

  pub Within-if :
      {k : ℕ} (b : Bool) {m n : Exec E S A}
      → Within measure k m
      → Within measure k n
      → Within measure k (if b then m else n)
  Within-if true h g = h
  Within-if false h g = g

  handled :
      (n j k : ℕ) (r : Outcome E A × S) (f : E → Exec E S A)
      → measure r.1 ≤ n + j
      → ((e : E) → Within measure k (f e))
      → measure (handle r f).1 ≤ n + (j + k)
  handled n j k (ok a, s) f h g = omega (arith, h)
  handled n j k (raised e, s) f h g = omega (arith, h, (g e).at s)

  pub Within-attempt :
      {j k : ℕ} {m : Exec E S A} {f : E → Exec E S A}
      → Within measure j m
      → ((e : E) → Within measure k (f e))
      → Within measure (j + k) (attempt m f)
  unfolding attempt
  Within-attempt {j} {k} {m} {f} h g = record {
    at = λ s. handled (measure s) j k (m s) f (h.at s) g;
  }

module _ {E S A B : Type 0} {measure : S → ℕ} where
  resumed :
      (n j k : ℕ) (r : Outcome E A × S) (f : A → Exec E S B)
      → measure r.1 ≤ n + j
      → ((a : A) → Within measure k (f a))
      → measure (resume r f).1 ≤ n + (j + k)
  resumed n j k (ok a, s) f h g = omega (arith, h, (g a).at s)
  resumed n j k (raised e, s) f h g = omega (arith, h)

  pub Within-bind :
      {j k : ℕ} {m : Exec E S A} {f : A → Exec E S B}
      → Within measure j m
      → ((a : A) → Within measure k (f a))
      → Within measure (j + k) (m >>= f)
  unfolding ◌>>=◌
  Within-bind {j} {k} {m} {f} h g = record { at = λ s. resumed (measure s) j k (m s) f (h.at s) g }
