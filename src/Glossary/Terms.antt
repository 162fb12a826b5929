-- ===== src/Glossary/Terms.antt =====
-- The aggregation of the extracted terms in `run` of src/transpose/pipeline/glossary.py, with `_clean_original_script`.
use transpose.Prelude.{
  ℕ, ◌+◌, Bool, true, false, not, ◌&&◌, Option, none, some, List, [], ◌∷◌, ◌++◌, list_eq,
  if◌then◌else◌,
}
use transpose.Text.{Text, strip, remove_char, replacement_char, is_empty}

pub data TermSource : Type 0 where
  seed : TermSource
  llm_detected : TermSource

pub record ExtractedTerm : Type 0 where
  pub term : Text
  pub original_script : Text
  pub definition : Text
  pub source : TermSource

-- What the stage calls of src/transpose/utils/unicode.py, for the book's language, and the script of a term of the
-- seed glossary. `lower` is Python's `str.lower`.
pub record Scripts : Type 0 where
  pub lower : Text → Text
  pub normalize_unicode : Text → Text
  pub is_latin_only : Text → Bool
  pub strip_latin_from_indic : Text → Text
  pub validate_script : Text → Bool
  pub is_hindi : Bool
  pub contains_gurmukhi : Text → Bool
  pub strip_gurmukhi : Text → Text
  pub seed_script : Text → Option Text

-- The values of `term_data`.
pub record Data : Type 0 where
  pub original_script : Text
  pub definitions : List Text
  pub source : Option TermSource
  pub occurrences : ℕ
  pub first_chapter : Option Text
  pub variants : List Text

abbrev pub no_data : Data
no_data = record {
  original_script = [];
  definitions = [];
  source = none;
  occurrences = 0;
  first_chapter = none;
  variants = [];
}

-- `d[key] = f(d[key])` of a `defaultdict`.
unfoldable pub update {ℓ} : {V : Type ℓ} → V → (V → V) → Text → List (Text × V) → List (Text × V)
unfolding list_eq
update default f key [] = (key, f default) ∷ []
update default f key ((k, v) ∷ items) =
    let rest = update default f key items in
    if list_eq k key then (k, f v) ∷ items else (k, v) ∷ rest

abbrev pub is_in : Text → List Text → Bool
is_in t [] = false
is_in t (x ∷ xs) = if list_eq x t then true else is_in t xs

-- `bool` of a text that may be `None`.
abbrev pub is_some_text : Option Text → Bool
is_some_text none = false
is_some_text (some t) = not (is_empty t)

abbrev pub is_seed : Option TermSource → Bool
is_seed (some TermSource.seed) = true
is_seed (some llm_detected) = false
is_seed none = false

-- `if definition and definition not in definitions`
abbrev pub add_definition : List Text → Text → List Text
add_definition definitions d =
    if not (is_empty d) && not (is_in d definitions) then definitions ++ d ∷ [] else definitions

abbrev pub newer_source : Option TermSource → TermSource → Option TermSource
newer_source old TermSource.seed = some TermSource.seed
newer_source none llm_detected = some llm_detected
newer_source (some s) llm_detected = some s

abbrev pub first_of : Option Text → Option Text → Option Text
first_of (some c) chapter_ref = some c
first_of none chapter_ref = if is_some_text chapter_ref then chapter_ref else none

module _ (scripts : Scripts) where
  unfoldable pub clean_original_script : Text → Text
  clean_original_script script =
      let s = remove_char replacement_char (scripts.normalize_unicode script) in
      strip (if scripts.is_latin_only s then [] else scripts.strip_latin_from_indic s)

  abbrev pub seeded : Option Text → Text → Text
  seeded none kept = kept
  seeded (some s) kept = if is_empty s then kept else clean_original_script s

  -- The body of the inner loop.
  unfoldable pub add_term : Option Text → ExtractedTerm → Text → Data → Data
  unfolding clean_original_script
  add_term chapter_ref t key d =
      let kept =
        if not (is_empty t.original_script) && is_empty d.original_script
        then clean_original_script t.original_script
        else d.original_script in
      record d {
        occurrences = d.occurrences + 1;
        original_script = seeded (scripts.seed_script key) kept;
        definitions = add_definition d.definitions t.definition;
        source = newer_source d.source t.source;
        first_chapter = first_of d.first_chapter chapter_ref;
      }

  unfoldable pub add_terms :
      Option Text → List ExtractedTerm → List (Text × Data) → List (Text × Data)
  unfolding add_term update
  add_terms chapter_ref [] table = table
  add_terms chapter_ref (t ∷ ts) table =
      let key = strip (scripts.lower t.term) in
      add_terms chapter_ref ts (update no_data (add_term chapter_ref t key) key table)

  -- The translations, each by its chapter and its terms.
  unfoldable pub aggregate :
      List (Option Text × List ExtractedTerm) → List (Text × Data) → List (Text × Data)
  unfolding add_terms
  aggregate [] table = table
  aggregate ((chapter_ref, ts) ∷ translations) table =
      aggregate translations (add_terms chapter_ref ts table)

  -- The script validation of a Hindi book.
  unfoldable pub fix_script : Data → Data
  unfolding clean_original_script
  fix_script d =
      let script = clean_original_script d.original_script in
      let is_wrong_script =
        not (is_empty script)
        && (not (scripts.validate_script script)
            && (scripts.is_hindi && scripts.contains_gurmukhi script)) in
      record d {
        original_script = if is_wrong_script then scripts.strip_gurmukhi script else script;
      }
