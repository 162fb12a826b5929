-- ===== src/Assemble/Ordered.antt =====
-- `sorted` on texts, as src/transpose/pipeline/assemble.py uses it on the references of chapters.
use transpose.Prelude.{
  ◌≡◌, refl, Bool, true, false, List, [], ◌∷◌, arith, All, All-weaken, list_eq, if◌then◌else◌,
}
use transpose.Text.{Text}
use transpose.Glossary.Merged.{Distinct}
use transpose.Glossary.Stage.{text_lt, insert_by, sorted_by}
use transpose.Assemble.{Item}

text_lt_trans : (s t u : Text) → text_lt s t ≡ true → text_lt t u ≡ true → text_lt s u ≡ true
unfolding text_lt
text_lt_trans [] [] u h k = cc
text_lt_trans (c ∷ s) [] u h k = cc
text_lt_trans [] (d ∷ t) [] h k = cc
text_lt_trans [] (d ∷ t) (e ∷ u) h k = refl
text_lt_trans (c ∷ s) (d ∷ t) [] h k = cc
text_lt_trans (c ∷ s) (d ∷ t) (e ∷ u) h k = ground (arith, text_lt_trans s t u)

text_lt_total : (s t : Text) → text_lt t s ≡ false → list_eq s t ≡ false → text_lt s t ≡ true
unfolding text_lt list_eq
text_lt_total [] [] h k = cc
text_lt_total [] (d ∷ t) h k = refl
text_lt_total (c ∷ s) [] h k = cc
text_lt_total (c ∷ s) (d ∷ t) h k = ground (arith, text_lt_total s t)

-- Strictly in the order of the references as texts.
abbrev pub Ascending {ℓ} : {V : Type ℓ} → List (Text × V) → Type 0
Ascending [] = Unit {0}
Ascending (x ∷ xs) = All (λ y. text_lt x.0 y.0 ≡ true) xs × Ascending xs

abbrev pub by_ref {ℓ} : {V : Type ℓ} → Text × V → Text × V → Bool
by_ref x y = text_lt x.0 y.0

All-if {ℓ κ} :
    {A : Type ℓ} (P : A → Type κ) (b : Bool) (xs ys : List A)
    → All P xs
    → All P ys
    → All P (if b then xs else ys)
All-if P true xs ys h k = h
All-if P false xs ys h k = k

Ascending-if :
    (b : Bool) (xs ys : List (Text × List Item))
    → (b ≡ true → Ascending xs)
    → (b ≡ false → Ascending ys)
    → Ascending (if b then xs else ys)
Ascending-if true xs ys h k = h refl
Ascending-if false xs ys h k = k refl

All-insert_by {ℓ κ} :
    {A : Type ℓ} (P : A → Type κ) (lt : A → A → Bool) (x : A) (xs : List A)
    → P x
    → All P xs
    → All P (insert_by lt x xs)
unfolding insert_by
All-insert_by P lt x [] p h = (p, tt)
All-insert_by P lt x (y ∷ ys) p (h, hs) =
    All-if P (lt y x) _ _ (h, All-insert_by P lt x ys p hs) (p, (h, hs))

pub All-sorted_by {ℓ κ} :
    {A : Type ℓ} (P : A → Type κ) (lt : A → A → Bool) (xs : List A)
    → All P xs
    → All P (sorted_by lt xs)
unfolding sorted_by
All-sorted_by P lt [] h = tt
All-sorted_by P lt (x ∷ xs) (h, hs) =
    All-insert_by P lt x (sorted_by lt xs) h (All-sorted_by P lt xs hs)

Ascending-insert_by :
    (x : Text × List Item) (xs : List (Text × List Item))
    → All (λ y. list_eq x.0 y.0 ≡ false) xs
    → Ascending xs
    → Ascending (insert_by by_ref x xs)
unfolding insert_by
Ascending-insert_by x [] d h = (tt, tt)
Ascending-insert_by x (y ∷ ys) (d, ds) (h, hs) =
    Ascending-if (text_lt y.0 x.0) _ _
      (λ e. (
        All-insert_by (λ z. text_lt y.0 z.0 ≡ true) by_ref x ys e h,
        Ascending-insert_by x ys ds hs,
      ))
      λ e.
        let before = text_lt_total x.0 y.0 e d in
        ((before, All-weaken ys (λ z. text_lt_trans x.0 y.0 z.0 before) h), (h, hs))

pub Ascending-sorted_by :
    (xs : List (Text × List Item)) → Distinct xs → Ascending (sorted_by by_ref xs)
unfolding sorted_by
Ascending-sorted_by [] h = tt
Ascending-sorted_by (x ∷ xs) (h, hs) =
    Ascending-insert_by x (sorted_by by_ref xs)
      (All-sorted_by (λ y. list_eq x.0 y.0 ≡ false) by_ref xs h) (Ascending-sorted_by xs hs)
