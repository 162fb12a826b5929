-- ===== src/Exec.antt =====
-- Coroutines of the pipeline: they change the local variables and the services, and return or raise. What
-- was written before an exception stays written.
pub mod Triple
pub mod Within
use transpose.Prelude.{Bool, true, false, List, [], ◌∷◌}

pub data Outcome {ℓ} (E A : Type ℓ) : Type ℓ where
  ok : A → Outcome E A
  raised : E → Outcome E A

abbrev pub Exec {ℓ} : Type ℓ → Type ℓ → Type ℓ → Type ℓ
Exec E S A = S → Outcome E A × S

module _ {ℓ} {E S A : Type ℓ} where
  abbrev pub pure : A → Exec E S A
  pure a s = (ok a, s)

  abbrev pub raise : E → Exec E S A
  raise e s = (raised e, s)

  abbrev pub gets : (S → A) → Exec E S A
  gets f s = (ok (f s), s)

module _ {ℓ} {E S A B : Type ℓ} where
  abbrev pub resume : Outcome E A × S → (A → Exec E S B) → Outcome E B × S
  resume (ok a, s) f = f a s
  resume (raised e, s) f = (raised e, s)

  infixl 10 ◌>>=◌ ◌>>◌
  unfoldable pub ◌>>=◌ : Exec E S A → (A → Exec E S B) → Exec E S B
  ◌>>=◌ m f s = resume (m s) f

  abbrev pub ◌>>◌ : Exec E S A → Exec E S B → Exec E S B
  m >> n = m >>= λ _. n

module _ {ℓ} {E S A : Type ℓ} where
  abbrev pub handle : Outcome E A × S → (E → Exec E S A) → Outcome E A × S
  handle (ok a, s) h = (ok a, s)
  handle (raised e, s) h = h e s

  -- `try: m` with `except E as e: h e`
  unfoldable pub attempt : Exec E S A → (E → Exec E S A) → Exec E S A
  attempt m h s = handle (m s) h

abbrev pub modify : {E S : Type 0} → (S → S) → Exec E S (Unit {0})
modify f s = (ok tt, f s)

-- `if b: m`
abbrev pub when : {E S : Type 0} → Bool → Exec E S (Unit {0}) → Exec E S (Unit {0})
when true m = m
when false m = pure tt
