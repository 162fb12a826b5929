-- ===== src/Glossary/Counted.antt =====
-- The counts of the glossary stage, src/transpose/pipeline/glossary.py, and the occurrences of terms that it follows.
use transpose.Prelude.{
  sym, not, if◌then◌else◌, ℕ, ◌+◌, ◌≤◌, ◌≡◌, ◌⊎◌, ◌&&◌, refl, ◌∙◌, Bool, false, Option, some, List,
  [], ◌∷◌, ◌++◌, map, flatten, All, arith, length, Bool-cases, inl, inr, ltb,
}
use transpose.Text.{Text}
use transpose.Glossary.Terms.{
  is_seed, ExtractedTerm, Scripts, Data, no_data, update, add_term, add_terms, aggregate,
  fix_script,
}
use transpose.Glossary.Variants.{
  normalize_romanized_term, key_lt, insert_desc, sort_desc, absorb, absorb_all, canonical,
  merge_group, buckets_from, deduplicate_spelling_variants,
}
use transpose.Glossary.Stage.{
  text_lt, GlossaryEntry, GlossaryOutput, insert_by, sorted_by, entry_of, is_rare, is_llm, is_some,
  build, run,
}

-- The sum of a weight over a list.
abbrev pub sum {ℓ} : {A : Type ℓ} → (A → ℕ) → List A → ℕ
sum w [] = 0
sum w (x ∷ xs) = w x + sum w xs

pub sum-append {ℓ} :
    {A : Type ℓ} (w : A → ℕ) (xs ys : List A) → sum w (xs ++ ys) ≡ sum w xs + sum w ys
sum-append w [] ys = omega arith
sum-append w (x ∷ xs) ys = omega (arith, sum-append w xs ys)

pub sum-map {ℓ κ} :
    {A : Type ℓ} {B : Type κ} (w : B → ℕ) (f : A → B) (xs : List A)
    → sum w (map f xs) ≡ sum (λ x. w (f x)) xs
sum-map w f [] = refl
sum-map w f (x ∷ xs) = omega (arith, sum-map w f xs)

pub sum-flatten {ℓ} :
    {A : Type ℓ} (w : A → ℕ) (xss : List (List A)) → sum w (flatten xss) ≡ sum (sum w) xss
sum-flatten w [] = refl
sum-flatten w (xs ∷ xss) = omega (arith, sum-append w xs (flatten xss), sum-flatten w xss)

-- An update of a `defaultdict` changes the sum by what it changes of one value.
pub sum-update {ℓ} :
    {V : Type ℓ} (w : V → ℕ) (default : V) (f : V → V) (n : ℕ) (key : Text)
    (items : List (Text × V))
    → w default ≡ 0
    → ((v : V) → w (f v) ≡ w v + n)
    → sum (λ x. w x.1) (update default f key items) ≡ sum (λ x. w x.1) items + n
unfolding update
sum-update w default f n key [] z h = omega (arith, z, h default)
sum-update w default f n key ((k, v) ∷ items) z h =
    ground (arith, h v, sum-update w default f n key items z h)

abbrev pub occurrences_of : List (Text × Data) → ℕ
occurrences_of items = sum (λ x. x.1.occurrences) items

abbrev pub terms_of : List (Option Text × List ExtractedTerm) → ℕ
terms_of translations = sum (λ t. length t.1) translations

module _ (scripts : Scripts) where
  occurrences-add_terms :
      (chapter_ref : Option Text) (ts : List ExtractedTerm) (table : List (Text × Data))
      → occurrences_of (add_terms scripts chapter_ref ts table) ≡ occurrences_of table + length ts
  unfolding add_terms add_term
  occurrences-add_terms chapter_ref [] table = omega arith
  occurrences-add_terms chapter_ref (t ∷ ts) table = omega (
    arith,
    occurrences-add_terms chapter_ref ts _,
    sum-update (λ d. d.occurrences) no_data (add_term scripts chapter_ref t _) 1 _ table refl
        (λ d. refl),
  )

  occurrences-aggregate :
      (translations : List (Option Text × List ExtractedTerm)) (table : List (Text × Data))
      → occurrences_of (aggregate scripts translations table)
        ≡ occurrences_of table + terms_of translations
  unfolding aggregate
  occurrences-aggregate [] table = omega arith
  occurrences-aggregate ((c, ts) ∷ translations) table = omega (
    arith,
    occurrences-aggregate translations (add_terms scripts c ts table),
    occurrences-add_terms c ts table,
  )

  occurrences-fix_script :
      (items : List (Text × Data))
      → occurrences_of (map (λ x. (x.0, fix_script scripts x.1)) items) ≡ occurrences_of items
  unfolding fix_script
  occurrences-fix_script [] = refl
  occurrences-fix_script (x ∷ items) = omega (arith, occurrences-fix_script items)

occurrences-insert_desc :
    (x : Text × Data) (xs : List (Text × Data))
    → occurrences_of (insert_desc x xs) ≡ x.1.occurrences + occurrences_of xs
unfolding insert_desc
occurrences-insert_desc x [] = refl
occurrences-insert_desc x (y ∷ ys) = elim (Bool-cases (key_lt x y)) [
  | inl e ↦ rw e (omega (arith, occurrences-insert_desc x ys))
  | inr e ↦ rw e refl
]

occurrences-sort_desc :
    (xs : List (Text × Data)) → occurrences_of (sort_desc xs) ≡ occurrences_of xs
unfolding sort_desc
occurrences-sort_desc [] = refl
occurrences-sort_desc (x ∷ xs) =
    omega (arith, occurrences-insert_desc x (sort_desc xs), occurrences-sort_desc xs)

occurrences-absorb_all :
    (d : Data) (xs : List (Text × Data))
    → (absorb_all d xs).occurrences ≡ d.occurrences + occurrences_of xs
unfolding absorb_all absorb
occurrences-absorb_all d [] = omega arith
occurrences-absorb_all d (x ∷ xs) = omega (arith, occurrences-absorb_all (absorb d x) xs)

occurrences-canonical :
    (xs : List (Text × Data)) → occurrences_of (canonical xs) ≡ occurrences_of xs
occurrences-canonical [] = refl
occurrences-canonical ((t, d) ∷ xs) = omega (arith, occurrences-absorb_all d xs)

occurrences-merge_group :
    (xs : List (Text × Data)) → occurrences_of (merge_group xs) ≡ occurrences_of xs
unfolding merge_group
occurrences-merge_group [] = refl
occurrences-merge_group (x ∷ []) = refl
occurrences-merge_group (x ∷ y ∷ xs) =
    occurrences-canonical (sort_desc (x ∷ y ∷ xs)) ∙ occurrences-sort_desc (x ∷ y ∷ xs)

occurrences-buckets_from :
    (normalize : Text → Text) (items : List (Text × Data))
    (buckets : List (Text × List (Text × Data)))
    → sum (λ b. occurrences_of b.1) (buckets_from normalize items buckets)
      ≡ sum (λ b. occurrences_of b.1) buckets + occurrences_of items
unfolding buckets_from
occurrences-buckets_from normalize [] buckets = omega arith
occurrences-buckets_from normalize (x ∷ items) buckets = omega (
  arith,
  occurrences-buckets_from normalize items
      (update [] (λ group. group ++ x ∷ []) (normalize x.0) buckets),
  sum-update occurrences_of [] (λ group. group ++ x ∷ []) x.1.occurrences (normalize x.0) buckets
      refl (λ g. omega (arith, sum-append (λ x. x.1.occurrences) g (x ∷ []))),
)

occurrences-groups :
    (bs : List (Text × List (Text × Data)))
    → occurrences_of (flatten (map (λ b. merge_group b.1) bs)) ≡ sum (λ b. occurrences_of b.1) bs
occurrences-groups [] = refl
occurrences-groups (b ∷ bs) = omega (
  arith,
  sum-append (λ x. x.1.occurrences) (merge_group b.1) (flatten (map (λ b. merge_group b.1) bs)),
  occurrences-merge_group b.1,
  occurrences-groups bs,
)

pub occurrences-deduplicate :
    (normalize : Text → Text) (items : List (Text × Data))
    → occurrences_of (deduplicate_spelling_variants normalize items) ≡ occurrences_of items
unfolding deduplicate_spelling_variants
occurrences-deduplicate normalize items = omega (
  arith,
  occurrences-groups (buckets_from normalize items []),
  occurrences-buckets_from normalize items [],
)

sum-insert_by {ℓ} :
    {A : Type ℓ} (w : A → ℕ) (lt : A → A → Bool) (x : A) (xs : List A)
    → sum w (insert_by lt x xs) ≡ w x + sum w xs
unfolding insert_by
sum-insert_by w lt x [] = refl
sum-insert_by w lt x (y ∷ ys) = elim (Bool-cases (lt y x)) [
  | inl e ↦ rw e (omega (arith, sum-insert_by w lt x ys))
  | inr e ↦ rw e refl
]

pub sum-sorted_by {ℓ} :
    {A : Type ℓ} (w : A → ℕ) (lt : A → A → Bool) (xs : List A) → sum w (sorted_by lt xs) ≡ sum w xs
unfolding sorted_by
sum-sorted_by w lt [] = refl
sum-sorted_by w lt (x ∷ xs) =
    omega (arith, sum-insert_by w lt x (sorted_by lt xs), sum-sorted_by w lt xs)

-- How many entries pass a test.
abbrev pub count : (GlossaryEntry → Bool) → List GlossaryEntry → ℕ
count test entries = sum (λ e. if test e then 1 else 0) entries

-- What the output counts.
pub record Counts (scripts : Scripts) (min_occurrences n : ℕ) (out : GlossaryOutput) : Type 0 where
  pub total : out.total_terms ≡ length out.entries
  pub seeds : out.seed_terms ≡ count (λ e. is_seed e.source) out.entries
  pub detected : out.llm_detected_terms ≡ count (λ e. not (is_seed e.source)) out.entries
  pub reviewed : out.needs_review_count ≡ count (λ e. e.needs_review) out.entries
  pub for_review :
      All
        (λ e. e.needs_review ≡ (is_llm e.source && not (is_some (scripts.seed_script e.term))))
        out.entries
  pub no_more : sum (λ e. e.occurrence_count) out.entries ≤ n
  pub no_less : (2 ≤ min_occurrences) ⊎ (sum (λ e. e.occurrence_count) out.entries ≡ n)
  pub frequent :
      All (λ e. (is_llm e.source && ltb e.occurrence_count min_occurrences) ≡ false) out.entries

build-Counts :
    (scripts : Scripts) (min_occurrences : ℕ) (items : List (Text × Data))
    → Counts scripts min_occurrences (occurrences_of items) (build scripts min_occurrences items)
unfolding build entry_of
build-Counts scripts min_occurrences [] = record {
  total = refl;
  seeds = refl;
  detected = refl;
  reviewed = refl;
  for_review = tt;
  no_more = omega arith;
  no_less = inr refl;
  frequent = tt;
}
build-Counts scripts min_occurrences ((t, d) ∷ items) =
    let rest = build-Counts scripts min_occurrences items in
    elim (Bool-cases (is_rare scripts min_occurrences d)) [
      | inl e ↦ rw e (record {
        total = rest.total;
        seeds = rest.seeds;
        detected = rest.detected;
        reviewed = rest.reviewed;
        for_review = rest.for_review;
        no_more = omega (arith, rest.no_more);
        no_less = ground (arith, e, rest.no_less);
        frequent = rest.frequent;
      })
      | inr e ↦ rw e (record {
        total = omega (arith, rest.total);
        seeds = ground (arith, rest.seeds);
        detected = ground (arith, rest.detected);
        reviewed = ground (arith, rest.reviewed);
        for_review = (refl, rest.for_review);
        no_more = omega (arith, rest.no_more);
        no_less = ground (arith, rest.no_less);
        frequent = (e, rest.frequent);
      })
    ]

Counts-eq :
    (scripts : Scripts) (min_occurrences m n : ℕ) (out : GlossaryOutput)
    → m ≡ n
    → Counts scripts min_occurrences n out
    → Counts scripts min_occurrences m out
Counts-eq scripts min_occurrences m n out e c = rw e c

-- The glossary of a book with translations has as many entries as it says, as many from the seed glossary and as many
-- others as it says, and as many up for review. An entry is up for review just if the model detected it and the seed
-- glossary has no script of its term, and an entry that the model detected occurs often enough. The occurrences of the
-- entries add up to no more than the terms that were extracted, and to just as many if no term has to occur twice.
pub run-Counts :
    (scripts : Scripts) (min_occurrences : ℕ) (t : Option Text × List ExtractedTerm)
    (ts : List (Option Text × List ExtractedTerm))
    → (out : GlossaryOutput) × (run scripts min_occurrences (t ∷ ts) ≡ some out)
      × Counts scripts min_occurrences (terms_of (t ∷ ts)) out
unfolding run
run-Counts scripts min_occurrences t ts =
    let table : List (Text × Data) =
      map (λ x. (x.0, fix_script scripts x.1)) (aggregate scripts (t ∷ ts) []) in
    let normalize = normalize_romanized_term scripts.lower in
    let merged = deduplicate_spelling_variants normalize table in
    let all_counted : occurrences_of (sorted_by (λ x y. text_lt x.0 y.0) merged)
        ≡ terms_of (t ∷ ts) =
      omega (
        arith,
        sum-sorted_by (λ x. x.1.occurrences) (λ x y. text_lt x.0 y.0) merged,
        occurrences-deduplicate normalize table,
        occurrences-fix_script scripts (aggregate scripts (t ∷ ts) []),
        occurrences-aggregate scripts (t ∷ ts) [],
      ) in
    (
      _,
      refl,
      Counts-eq scripts min_occurrences _ _ _ (sym all_counted)
          (build-Counts scripts min_occurrences _),
    )
