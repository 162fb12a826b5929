-- ===== src/Glossary/Merged.antt =====
-- What `_deduplicate_spelling_variants` of src/transpose/pipeline/glossary.py does with the terms.
use transpose.Prelude.{
  ◌≡◌, ◌⊎◌, refl, sym, true, false, List, [], ◌∷◌, ◌++◌, map, flatten, All, All-weaken, list_eq,
  list_eq_iff, Bool-cases, inl, inr,
}
use transpose.Text.{Text}
use transpose.Glossary.Terms.{Data, update}
use transpose.Glossary.Counted.{occurrences_of, occurrences-deduplicate}
use transpose.Glossary.Variants.{
  key_lt, insert_desc, sort_desc, canonical, merge_group, buckets_from,
  deduplicate_spelling_variants,
}

All-append {ℓ κ} :
    {A : Type ℓ} (P : A → Type κ) (xs ys : List A) → All P xs → All P ys → All P (xs ++ ys)
All-append P [] ys h k = k
All-append P (x ∷ xs) ys (h, hs) k = (h, All-append P xs ys hs k)

-- The keys of a `dict` differ.
abbrev pub Distinct {ℓ} : {V : Type ℓ} → List (Text × V) → Type 0
Distinct [] = Unit {0}
Distinct (x ∷ xs) = All (λ y. list_eq x.0 y.0 ≡ false) xs × Distinct xs

module _ {ℓ} {V : Type ℓ} (default : V) (f : V → V) (key : Text) where
  pub All-update {κ} :
      (P : Text × V → Type κ) (items : List (Text × V))
      → P (key, f default)
      → ((k : Text) (v : V) → list_eq k key ≡ true → P (k, v) → P (k, f v))
      → All P items
      → All P (update default f key items)
  unfolding update
  All-update P [] d h k = (d, tt)
  All-update P ((k, v) ∷ items) d h (p, ps) = elim (Bool-cases (list_eq k key)) [
    | inl e ↦ rw e (h k v e p, ps)
    | inr e ↦ rw e (p, All-update P items d h ps)
  ]

  pub Distinct-update :
      (items : List (Text × V)) → Distinct items → Distinct (update default f key items)
  unfolding update
  Distinct-update [] h = (tt, tt)
  Distinct-update ((k, v) ∷ items) (h, hs) = elim (Bool-cases (list_eq k key)) [
    | inl e ↦ rw e (h, hs)
    | inr e ↦ rw e (
      All-update (λ y. list_eq k y.0 ≡ false) items e (λ k' v' g p. p) h,
      Distinct-update items hs,
    )
  ]

module _ (normalize : Text → Text) where
  -- Each group holds terms of its key's normal form.
  abbrev Grouped : Text × List (Text × Data) → Type 0
  Grouped b = All (λ x. normalize x.0 ≡ b.0) b.1

  Grouped-buckets_from :
      (items : List (Text × Data)) (buckets : List (Text × List (Text × Data)))
      → All Grouped buckets
      → All Grouped (buckets_from normalize items buckets)
  unfolding buckets_from
  Grouped-buckets_from [] buckets h = h
  Grouped-buckets_from (x ∷ items) buckets h = Grouped-buckets_from items _ (
      All-update {V = List (Text × Data)} [] (λ group. group ++ x ∷ []) (normalize x.0) Grouped
        buckets (refl, tt)
        (λ k g e p. All-append _ g (x ∷ []) p (sym ((list_eq_iff k (normalize x.0)).0 e), tt)) h)

  Distinct-buckets_from :
      (items : List (Text × Data)) (buckets : List (Text × List (Text × Data)))
      → Distinct buckets
      → Distinct (buckets_from normalize items buckets)
  unfolding buckets_from
  Distinct-buckets_from [] buckets h = h
  Distinct-buckets_from (x ∷ items) buckets h = Distinct-buckets_from items _ (
      Distinct-update {V = List (Text × Data)} [] (λ group. group ++ x ∷ []) (normalize x.0) buckets
        h)

All-insert_desc :
    (P : Text × Data → Type 0) (x : Text × Data) (xs : List (Text × Data))
    → P x
    → All P xs
    → All P (insert_desc x xs)
unfolding insert_desc
All-insert_desc P x [] p h = (p, tt)
All-insert_desc P x (y ∷ ys) p (h, hs) = elim (Bool-cases (key_lt x y)) [
  | inl e ↦ rw e (h, All-insert_desc P x ys p hs)
  | inr e ↦ rw e (p, (h, hs))
]

All-sort_desc :
    (P : Text × Data → Type 0) (xs : List (Text × Data)) → All P xs → All P (sort_desc xs)
unfolding sort_desc
All-sort_desc P [] h = tt
All-sort_desc P (x ∷ xs) (h, hs) = All-insert_desc P x (sort_desc xs) h (All-sort_desc P xs hs)

All-canonical :
    (P : Text → Type 0) (xs : List (Text × Data))
    → All (λ x. P x.0) xs
    → All (λ x. P x.0) (canonical xs)
All-canonical P [] h = tt
All-canonical P ((t, d) ∷ xs) h = (h.0, tt)

-- Every property of a group's terms, whatever their data, is one of the merged entry's.
All-merge_group :
    (P : Text → Type 0) (xs : List (Text × Data))
    → All (λ x. P x.0) xs
    → All (λ x. P x.0) (merge_group xs)
unfolding merge_group
All-merge_group P [] h = tt
All-merge_group P (x ∷ []) h = h
All-merge_group P (x ∷ y ∷ xs) h =
    All-canonical P (sort_desc (x ∷ y ∷ xs)) (All-sort_desc (λ x. P x.0) (x ∷ y ∷ xs) h)

canonical-one :
    (xs : List (Text × Data)) → (canonical xs ≡ []) ⊎ ((x : Text × Data) × (canonical xs ≡ x ∷ []))
canonical-one [] = inl refl
canonical-one ((t, d) ∷ xs) = inr (_, refl)

merge_group-one :
    (xs : List (Text × Data))
    → (merge_group xs ≡ []) ⊎ ((x : Text × Data) × (merge_group xs ≡ x ∷ []))
unfolding merge_group
merge_group-one [] = inl refl
merge_group-one (x ∷ []) = inr (x, refl)
merge_group-one (x ∷ y ∷ xs) = canonical-one (sort_desc (x ∷ y ∷ xs))

-- No two terms are spelling variants of each other.
abbrev pub Separate : (Text → Text) → List (Text × Data) → Type 0
Separate normalize [] = Unit {0}
Separate normalize (x ∷ xs) =
    All (λ y. list_eq (normalize x.0) (normalize y.0) ≡ false) xs × Separate normalize xs

module _ (normalize : Text → Text) where
  abbrev merged_of : List (Text × List (Text × Data)) → List (Text × Data)
  merged_of bs = flatten (map (λ b. merge_group b.1) bs)

  -- The terms of the other groups have other normal forms.
  other_forms :
      (key : Text) (bs : List (Text × List (Text × Data)))
      → All (λ b. list_eq key b.0 ≡ false) bs
      → All (Grouped normalize) bs
      → All (λ y. list_eq key (normalize y.0) ≡ false) (merged_of bs)
  other_forms key [] h g = tt
  other_forms key (b ∷ bs) (h, hs) (g, gs) =
      All-append _ (merge_group b.1) (merged_of bs)
        (All-merge_group (λ t. list_eq key (normalize t) ≡ false) b.1
          (All-weaken {P = λ x. normalize x.0 ≡ b.0} {Q = λ x. list_eq key (normalize x.0) ≡ false}
            b.1 (λ x e. rw e h) g))
        (other_forms key bs hs gs)

  only_form :
      (x : Text × Data) (form : Text) (xs : List (Text × Data))
      → xs ≡ x ∷ []
      → All (λ y. normalize y.0 ≡ form) xs
      → normalize x.0 ≡ form
  only_form x form [] e h = cc
  only_form x form (y ∷ ys) e (h, hs) = let same : x ≡ y = cc in rw same h

  first_form :
      (x : Text × Data) (b : Text × List (Text × Data))
      → merge_group b.1 ≡ x ∷ []
      → Grouped normalize b
      → normalize x.0 ≡ b.0
  first_form x b e g =
      only_form x b.0 (merge_group b.1) e (All-merge_group (λ t. normalize t ≡ b.0) b.1 g)

  Separate-merged_of :
      (bs : List (Text × List (Text × Data)))
      → Distinct bs
      → All (Grouped normalize) bs
      → Separate normalize (merged_of bs)
  Separate-merged_of [] d g = tt
  Separate-merged_of (b ∷ bs) (d, ds) (g, gs) =
      let rest = Separate-merged_of bs ds gs in
      elim (merge_group-one b.1) [
        | inl e ↦ rw e rest
        | inr (x, e) ↦
            let form : normalize x.0 ≡ b.0 = first_form x b e g in
            rw (e, form) (other_forms b.0 bs d gs, rest)
      ]

-- Terms that differ only in spelling end as one: no two terms that are left have the same normal form. And no
-- occurrence is lost by it.
pub deduplicate_spelling_variants_lem :
    (normalize : Text → Text) (items : List (Text × Data))
    → Separate normalize (deduplicate_spelling_variants normalize items)
      × (occurrences_of (deduplicate_spelling_variants normalize items) ≡ occurrences_of items)
unfolding deduplicate_spelling_variants
deduplicate_spelling_variants_lem normalize items = (
  Separate-merged_of normalize (buckets_from normalize items [])
      (Distinct-buckets_from normalize items [] tt) (Grouped-buckets_from normalize items [] tt),
  occurrences-deduplicate normalize items,
)
