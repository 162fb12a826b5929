-- ===== src/Assemble/Filed.antt =====
-- The `defaultdict` of the chapters in src/transpose/pipeline/assemble.py: what is found under a reference.
use transpose.Prelude.{
  ◌≡◌, refl, sym, ◌∙◌, Bool, true, false, List, [], ◌∷◌, ◌++◌, map, select, arith, All, list_eq,
  list_eq_iff, if◌then◌else◌, Bool-cases, inl, inr, append-nil, append_assoc,
}
use transpose.Text.{Text}
use transpose.Glossary.Terms.{update}
use transpose.Chunk.Within.{Any}
use transpose.Glossary.Merged.{Distinct, Distinct-update}
use transpose.Glossary.Stage.{text_lt, insert_by, sorted_by}
use transpose.Assemble.{Item}
use transpose.Assemble.Group.{collect}
use transpose.Assemble.Ordered.{by_ref}

-- The items that are filed under the reference, in order.
abbrev pub filed_under : Text → List (Text × Item) → List Item
filed_under ref filed = map (λ x. x.1) (select (λ x. list_eq x.0 ref) filed)

-- `chapters_data[ref]`, where a reference that is not there has no items.
abbrev pub items_at : Text → List (Text × List Item) → List Item
items_at ref [] = []
items_at ref ((k, items) ∷ rest) = if list_eq k ref then items else items_at ref rest

list_eq_refl : (s : Text) → list_eq s s ≡ true
list_eq_refl s = (list_eq_iff s s).1 refl

items_at-update :
    (ref key : Text) (item : Item) (chapters_data : List (Text × List Item))
    → items_at ref (update [] (λ items. items ++ item ∷ []) key chapters_data) ≡ (
        if list_eq key ref
        then items_at ref chapters_data ++ item ∷ []
        else items_at ref chapters_data)
unfolding update
items_at-update ref key item [] = refl
items_at-update ref key item ((k, items) ∷ rest) = ground (
  arith,
  items_at-update ref key item rest,
  list_eq_iff k key,
  list_eq_iff k ref,
  list_eq_iff key ref,
)

pub items_at-collect :
    (ref : Text) (filed : List (Text × Item)) (chapters_data : List (Text × List Item))
    → items_at ref (collect filed chapters_data)
      ≡ items_at ref chapters_data ++ filed_under ref filed
unfolding collect select
items_at-collect ref [] chapters_data = sym (append-nil _)
items_at-collect ref ((key, item) ∷ filed) chapters_data =
    items_at-collect ref filed (update [] (λ items. items ++ item ∷ []) key chapters_data)
    ∙ rw (items_at-update ref key item chapters_data) (elim (Bool-cases (list_eq key ref)) [
      | inl e ↦ rw e (append_assoc (items_at ref chapters_data) (item ∷ []) (filed_under ref filed))
      | inr e ↦ rw e refl
    ])

pub Distinct-collect :
    (filed : List (Text × Item)) (chapters_data : List (Text × List Item))
    → Distinct chapters_data
    → Distinct (collect filed chapters_data)
unfolding collect
Distinct-collect [] chapters_data h = h
Distinct-collect ((key, item) ∷ filed) chapters_data h =
    Distinct-collect filed _
      (Distinct-update {V = List Item} [] (λ items. items ++ item ∷ []) key chapters_data h)

-- The entries of a `dict` are what is found under their keys.
pub items_at-own :
    (chapters_data : List (Text × List Item))
    → Distinct chapters_data
    → All (λ x. items_at x.0 chapters_data ≡ x.1) chapters_data
items_at-own [] h = tt
items_at-own ((k, items) ∷ rest) (h, hs) =
    (rw (list_eq_refl k) refl, later rest h (items_at-own rest hs))
  where
    later :
        (xs : List (Text × List Item))
        → All (λ y. list_eq k y.0 ≡ false) xs
        → All (λ x. items_at x.0 rest ≡ x.1) xs
        → All (λ x. items_at x.0 ((k, items) ∷ rest) ≡ x.1) xs
    later [] a b = tt
    later (x ∷ xs) (a, as') (b, bs) = (rw a b, later xs as' bs)

-- A reference that has an item has a section.
abbrev pub HasRef : Text → List (Text × List Item) → Type 0
HasRef ref chapters_data = Any (λ c. c.0 ≡ ref) chapters_data

HasRef-update_self :
    (f : List Item → List Item) (key : Text) (xs : List (Text × List Item))
    → HasRef key (update [] f key xs)
unfolding update
HasRef-update_self f key [] = inl refl
HasRef-update_self f key ((k, v) ∷ xs) = elim (Bool-cases (list_eq k key)) [
  | inl e ↦ rw e (inl ((list_eq_iff k key).0 e))
  | inr e ↦ rw e (inr (HasRef-update_self f key xs))
]

HasRef-update :
    (ref : Text) (f : List Item → List Item) (key : Text) (xs : List (Text × List Item))
    → HasRef ref xs
    → HasRef ref (update [] f key xs)
unfolding update
HasRef-update ref f key [] h = absurd h
HasRef-update ref f key ((k, v) ∷ xs) h = elim (Bool-cases (list_eq k key)) [
  | inl e ↦ rw e h
  | inr e ↦ rw e (elim h [ inl p ↦ inl p | inr p ↦ inr (HasRef-update ref f key xs p) ])
]

HasRef-collect :
    (ref : Text) (filed : List (Text × Item)) (xs : List (Text × List Item))
    → HasRef ref xs
    → HasRef ref (collect filed xs)
unfolding collect
HasRef-collect ref [] xs h = h
HasRef-collect ref ((key, item) ∷ filed) xs h =
    HasRef-collect ref filed _ (HasRef-update ref (λ items. items ++ item ∷ []) key xs h)

pub HasRef-filed :
    (filed : List (Text × Item)) (xs : List (Text × List Item))
    → All (λ y. HasRef y.0 (collect filed xs)) filed
unfolding collect
HasRef-filed [] xs = tt
HasRef-filed ((key, item) ∷ filed) xs = (
  HasRef-collect key filed _ (HasRef-update_self (λ items. items ++ item ∷ []) key xs),
  HasRef-filed filed (update [] (λ items. items ++ item ∷ []) key xs),
)

HasRef-if :
    (ref : Text) (b : Bool) (xs ys : List (Text × List Item))
    → HasRef ref xs
    → HasRef ref ys
    → HasRef ref (if b then xs else ys)
HasRef-if ref true xs ys h k = h
HasRef-if ref false xs ys h k = k

HasRef-insert_by :
    (ref : Text) (x : Text × List Item) (xs : List (Text × List Item))
    → HasRef ref (x ∷ xs)
    → HasRef ref (insert_by by_ref x xs)
unfolding insert_by
HasRef-insert_by ref x [] h = h
HasRef-insert_by ref x (y ∷ ys) (inl e) =
    HasRef-if ref (text_lt y.0 x.0) _ _ (inr (HasRef-insert_by ref x ys (inl e))) (inl e)
HasRef-insert_by ref x (y ∷ ys) (inr (inl e)) =
    HasRef-if ref (text_lt y.0 x.0) _ _ (inl e) (inr (inl e))
HasRef-insert_by ref x (y ∷ ys) (inr (inr h)) =
    HasRef-if ref (text_lt y.0 x.0) _ _ (inr (HasRef-insert_by ref x ys (inr h))) (inr (inr h))

pub HasRef-sorted_by :
    (ref : Text) (xs : List (Text × List Item)) → HasRef ref xs → HasRef ref (sorted_by by_ref xs)
unfolding sorted_by
HasRef-sorted_by ref [] h = h
HasRef-sorted_by ref (x ∷ xs) h =
    HasRef-insert_by ref x (sorted_by by_ref xs)
      (elim h [ inl e ↦ inl e | inr e ↦ inr (HasRef-sorted_by ref xs e) ])
