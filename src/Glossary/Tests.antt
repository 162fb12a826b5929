-- ===== src/Glossary/Tests.antt =====
-- A glossary of two spellings of a term, by a `lower` and scripts that leave a text as it is.
use transpose.Prelude.{ℕ, ◌≡◌, true, false, none, some, List, [], ◌∷◌, Option}
use transpose.Text.{Text, codes}
use transpose.Glossary.Terms.{llm_detected, ExtractedTerm, Scripts, Data}
use transpose.Glossary.Variants.{normalize_romanized_term, deduplicate_spelling_variants}
use transpose.Glossary.Stage.{GlossaryOutput, run}
use transpose.Glossary.Counted.{Counts, occurrences_of, terms_of, run-Counts}
use transpose.Glossary.Merged.{Separate, deduplicate_spelling_variants_lem}

abbrev plain : Scripts
plain = record {
  lower = λ t. t;
  normalize_unicode = λ t. t;
  is_latin_only = λ t. false;
  strip_latin_from_indic = λ t. t;
  validate_script = λ t. true;
  is_hindi = true;
  contains_gurmukhi = λ t. false;
  strip_gurmukhi = λ t. t;
  seed_script = λ t. none;
}

abbrev spelled : Text → ExtractedTerm
spelled t = record {
  term = t;
  original_script = [];
  definition = codes "a god";
  source = llm_detected;
}

abbrev one_translation : Option Text × List ExtractedTerm
one_translation = (none, spelled (codes "bhairav") ∷ spelled (codes "bhairava") ∷ [])

abbrev data_of : ℕ → Data
data_of n = record {
  original_script = [];
  definitions = [];
  source = some llm_detected;
  occurrences = n;
  first_chapter = none;
  variants = [];
}

abbrev two_spellings : List (Text × Data)
two_spellings =
    (codes "bhairav", data_of 1) ∷ (codes "bhairava", data_of 2) ∷ (codes "om", data_of 1) ∷ []

abbrev normal : Text → Text
normal = normalize_romanized_term (λ t. t)

run-Counts_example :
    (out : GlossaryOutput) × (run plain 2 (one_translation ∷ []) ≡ some out)
    × Counts plain 2 (terms_of (one_translation ∷ [])) out
run-Counts_example = run-Counts plain 2 one_translation []

deduplicate_spelling_variants_lem_example :
    Separate normal (deduplicate_spelling_variants normal two_spellings)
    × (occurrences_of (deduplicate_spelling_variants normal two_spellings)
        ≡ occurrences_of two_spellings)
deduplicate_spelling_variants_lem_example = deduplicate_spelling_variants_lem normal two_spellings
