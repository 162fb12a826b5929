-- ===== src/Prelude/Checks.antt =====
-- A check that adds a finding to a list: lists of findings, one check to an item, and equality of lists.
use Prim.Native.Nat.{ℕ}
use Prim.Native.String.{String}
use text.Mathlib.Text.{◌==◌ as str_eq}
use mathlib.Core.Path.{◌≡◌, refl}
use mathlib.Core.Logic.{◌↔◌}
use mathlib.Core.Bool.{Bool, true, false, ◌&&◌}
use mathlib.Core.List.{List, [], ◌∷◌, ◌++◌}
use native.Mathlib.Omega.{arith}
use transpose.Prelude.Tests.{◌==◌, if◌then◌else◌}
use transpose.Prelude.Lists.{append-eq-nil_iff}

abbrev pub All {ℓ κ} : {A : Type ℓ} → (A → Type κ) → List A → Type κ
All P [] = Unit
All P (x ∷ xs) = P x × All P xs

pub All-weaken {ℓ κ ι} :
    {A : Type ℓ} {P : A → Type κ} {Q : A → Type ι} (xs : List A)
    → ((x : A) → P x → Q x)
    → All P xs
    → All Q xs
All-weaken [] f h = tt
All-weaken (x ∷ xs) f (h, hs) = (f x h, All-weaken xs f hs)

-- The findings of a check on every item, in order.
unfoldable pub findings {ℓ κ} : {A : Type ℓ} {B : Type κ} → (A → List B) → List A → List B
findings f [] = []
findings f (x ∷ xs) = f x ++ findings f xs

-- There are none exactly when there are none on any item.
pub findings_iff {ℓ κ ι} :
    {A : Type ℓ} {B : Type κ} (P : A → Type ι) (f : A → List B)
    → ((x : A) → (f x ≡ []) ↔ P x)
    → (xs : List A) → (findings f xs ≡ []) ↔ All P xs
unfolding findings
findings_iff P f each [] = (λ _. tt, λ _. refl)
findings_iff P f each (x ∷ xs) =
    let (a, a') = append-eq-nil_iff (f x) (findings f xs) in
    let (b, b') = each x in
    let (c, c') = findings_iff P f each xs in
    (λ h. (b (a h).0, c (a h).1), λ v. a' (b' v.0, c' v.1))

-- Python's `==` of two lists of numbers.
unfoldable pub list_eq : List ℕ → List ℕ → Bool
list_eq [] [] = true
list_eq [] (_ ∷ _) = false
list_eq (_ ∷ _) [] = false
list_eq (x ∷ xs) (y ∷ ys) = x == y && list_eq xs ys

pub list_eq_iff : (xs ys : List ℕ) → (list_eq xs ys ≡ true) ↔ (xs ≡ ys)
unfolding list_eq
list_eq_iff [] [] = (λ _. refl, λ _. refl)
list_eq_iff [] (y ∷ ys) = (λ h. cc, λ h. cc)
list_eq_iff (x ∷ xs) [] = (λ h. cc, λ h. cc)
list_eq_iff (x ∷ xs) (y ∷ ys) =
    let (f, f') = list_eq_iff xs ys in (λ h. ground (arith, f), λ h. ground (arith, f'))

-- Python's `in` of a list or a set of strings.
abbrev pub member : String → List String → Bool
member id [] = false
member id (i ∷ ids) = if str_eq i id then true else member id ids
