-- ===== src/Assemble/Headings.antt =====
-- `_detect_heading` and `_detect_chapter_boundary` of src/transpose/pipeline/assemble.py.
use transpose.Prelude.{String, Bool, not, ◌&&◌, List, [], ◌∷◌, length, leb, any, ◌==◌}
use transpose.Text.{Text, codes, is_space}
use transpose.Assemble.{Unicode}
use transpose.Assemble.Patterns.{
  Pattern, word, zero_or_more, one_of, one_or_more, matches, found, is_dash, is_upper,
  is_space_or_hyphen, is_decimal, is_numeral, up_to_digits,
}

module _ (unicode : Unicode) where
  -- `^Word\s+\d+`
  abbrev pub word_and_number : String → List Pattern
  word_and_number w = word (codes w) ∷ one_or_more is_space ∷ one_or_more (is_decimal unicode) ∷ []

  -- `^Word[\s-]*\d+`
  abbrev pub hyphened : String → List Pattern
  hyphened w =
      word (codes w) ∷ zero_or_more is_space_or_hyphen ∷ one_or_more (is_decimal unicode) ∷ []

  -- `_HEADING_PATTERNS`
  abbrev pub heading_patterns : List (List Pattern)
  heading_patterns =
      word_and_number "Discourse"
      ∷ (word (codes "Part") ∷ one_or_more is_space ∷ one_or_more (is_numeral unicode) ∷ [])
      ∷ word_and_number "Section"
      ∷ word_and_number "Lecture"
      ∷ word_and_number "Talk"
      ∷ word_and_number "Sermon"
      ∷ word_and_number "Session"
      ∷ hyphened "Pravachan"
      ∷ hyphened "Vachan"
      ∷ (one_of (is_decimal unicode)
          ∷ up_to_digits unicode 2
          ∷ one_of (λ c. c == b'.')
          ∷ one_or_more is_space
          ∷ one_of is_upper
          ∷ [])
      ∷ []

  -- `_CHAPTER_LEVEL_PATTERNS`
  abbrev pub chapter_level_patterns : List (List Pattern)
  chapter_level_patterns =
      (word (codes "Tantra")
        ∷ one_or_more is_space
        ∷ word (codes "Sutra")
        ∷ zero_or_more is_space
        ∷ one_of is_dash
        ∷ zero_or_more is_space
        ∷ word (codes "Method")
        ∷ zero_or_more is_space
        ∷ one_or_more (is_decimal unicode)
        ∷ [])
      ∷ word_and_number "Method"
      ∷ word_and_number "Chapter"
      ∷ []

  -- `any(p.match(text) for p in patterns)`
  abbrev pub any_matches : List (List Pattern) → Text → Bool
  any_matches patterns text = any (λ p. found (matches p text)) patterns

  abbrev pub has_newline : Text → Bool
  has_newline text = any (λ c. c == 10) text

  -- `_detect_heading`
  unfoldable pub detect_heading : Text → Bool
  unfolding any matches word zero_or_more one_of one_or_more is_decimal is_numeral up_to_digits
  detect_heading text =
      leb (length text) 120 && (not (has_newline text) && any_matches heading_patterns text)

  -- `_detect_chapter_boundary`
  unfoldable pub detect_chapter_boundary : Text → Bool
  unfolding any matches word zero_or_more one_of one_or_more is_decimal
  detect_chapter_boundary text =
      leb (length text) 150 && (not (has_newline text) && any_matches chapter_level_patterns text)
