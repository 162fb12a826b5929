-- ===== src/Glossary/Stage.antt =====
-- The entries and the output of `run` in src/transpose/pipeline/glossary.py. The rows that it upserts, one
-- `CulturalTerm` for each entry, and the glossary that it creates hold the entries of the output.
use transpose.Prelude.{
  ◌==◌, ℕ, suc, Bool, true, false, not, ◌&&◌, Option, none, some, List, [], ◌∷◌, ◌++◌, length, map,
  ltb, if◌then◌else◌,
}
use transpose.Text.{Text, codes, contains}
use transpose.Glossary.Terms.{
  TermSource, llm_detected, ExtractedTerm, Scripts, Data, is_seed, clean_original_script, aggregate,
  fix_script,
}
use transpose.Glossary.Variants.{normalize_romanized_term, deduplicate_spelling_variants}

pub record GlossaryEntry : Type 0 where
  pub term : Text
  pub original_script : Text
  pub definition : Text
  pub source : Option TermSource
  pub occurrence_count : ℕ
  pub first_chapter : Option Text
  pub needs_review : Bool

pub record GlossaryOutput : Type 0 where
  pub total_terms : ℕ
  pub seed_terms : ℕ
  pub llm_detected_terms : ℕ
  pub needs_review_count : ℕ
  pub entries : List GlossaryEntry

-- `s < t` by code points
unfoldable pub text_lt : Text → Text → Bool
text_lt [] [] = false
text_lt [] (_ ∷ _) = true
text_lt (_ ∷ _) [] = false
text_lt (c ∷ s) (d ∷ t) = if ltb c d then true else if ltb d c then false else text_lt s t

-- `sorted`, by a first component that differs or by the texts themselves
unfoldable pub insert_by {ℓ} : {A : Type ℓ} → (A → A → Bool) → A → List A → List A
insert_by lt x [] = x ∷ []
insert_by lt x (y ∷ ys) = let rest = insert_by lt x ys in if lt y x then y ∷ rest else x ∷ y ∷ ys

unfoldable pub sorted_by {ℓ} : {A : Type ℓ} → (A → A → Bool) → List A → List A
unfolding insert_by
sorted_by lt [] = []
sorted_by lt (x ∷ xs) = insert_by lt x (sorted_by lt xs)

-- `max(definitions, key=len) if definitions else ""`: the first of the longest.
abbrev pub longest_of : Text → List Text → Text
longest_of best [] = best
longest_of best (d ∷ ds) = longest_of (if ltb (length best) (length d) then d else best) ds

abbrev pub best_definition : List Text → Text
best_definition [] = []
best_definition (d ∷ ds) = longest_of d ds

-- `sep.join(texts)`
abbrev pub join_texts : Text → List Text → Text
join_texts sep [] = []
join_texts sep (t ∷ []) = t
join_texts sep (t ∷ u ∷ ts) = t ++ (sep ++ join_texts sep (u ∷ ts))

-- `s.rstrip(".")`
unfoldable pub rstrip_stops : Text → Text
rstrip_stops [] = []
rstrip_stops (c ∷ s) = elim (rstrip_stops s) [
  | [] ↦ if c == b'.' then [] else c ∷ []
  | d ∷ r ↦ c ∷ d ∷ r
]

unfoldable pub with_variants : Text → List Text → Text
unfolding text_lt sorted_by rstrip_stops contains
with_variants definition [] = definition
with_variants definition (v ∷ vs) =
    let variant_note = codes "Also: " ++ join_texts (codes ", ") (sorted_by text_lt (v ∷ vs)) in
    if contains variant_note definition
    then definition
    else rstrip_stops definition ++ (codes ". " ++ variant_note)

abbrev pub is_llm : Option TermSource → Bool
is_llm (some llm_detected) = true
is_llm (some TermSource.seed) = false
is_llm none = false

abbrev pub is_some {ℓ} : {A : Type ℓ} → Option A → Bool
is_some none = false
is_some (some _) = true

module _ (scripts : Scripts) (min_occurrences_for_llm_terms : ℕ) where
  unfoldable pub entry_of : Text × Data → GlossaryEntry
  unfolding clean_original_script with_variants
  entry_of (term, d) = record {
    term = term;
    original_script = clean_original_script scripts d.original_script;
    definition = with_variants (best_definition d.definitions) d.variants;
    source = d.source;
    occurrence_count = d.occurrences;
    first_chapter = d.first_chapter;
    needs_review = is_llm d.source && not (is_some (scripts.seed_script term));
  }

  abbrev pub is_rare : Data → Bool
  is_rare d = is_llm d.source && ltb d.occurrences min_occurrences_for_llm_terms

  -- The loop over the sorted items, with the counters.
  unfoldable pub build : List (Text × Data) → GlossaryOutput
  unfolding entry_of
  build [] = record {
    total_terms = 0;
    seed_terms = 0;
    llm_detected_terms = 0;
    needs_review_count = 0;
    entries = [];
  }
  build ((term, d) ∷ items) =
      let rest = build items in
      let entry = entry_of (term, d) in
      if is_rare d then rest else record {
        total_terms = suc rest.total_terms;
        seed_terms = if is_seed d.source then suc rest.seed_terms else rest.seed_terms;
        llm_detected_terms =
            if is_seed d.source then rest.llm_detected_terms else suc rest.llm_detected_terms;
        needs_review_count =
            if entry.needs_review then suc rest.needs_review_count else rest.needs_review_count;
        entries = entry ∷ rest.entries;
      }

  -- `none` is the `ValueError` of a book with no translations.
  unfoldable pub run : List (Option Text × List ExtractedTerm) → Option GlossaryOutput
  unfolding aggregate fix_script deduplicate_spelling_variants normalize_romanized_term build
      sorted_by text_lt
  run [] = none
  run (t ∷ translations) =
      let table =
        map (λ x. (x.0, fix_script scripts x.1)) (aggregate scripts (t ∷ translations) []) in
      let merged = deduplicate_spelling_variants (normalize_romanized_term scripts.lower) table in
      some (build (sorted_by (λ x y. text_lt x.0 y.0) merged))
