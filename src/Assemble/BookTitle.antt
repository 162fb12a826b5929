-- ===== src/Assemble/BookTitle.antt =====
-- `_extract_book_title` of src/transpose/pipeline/assemble.py.
use transpose.Prelude.{
  ℕ, String, Bool, false, ◌&&◌, ◌||◌, Option, none, some, List, [], ◌∷◌, ◌++◌, map, length, take,
  ltb, ◌==◌, if◌then◌else◌, str_eq,
}
use transpose.Text.{Text, codes, strip, is_empty}
use transpose.Glossary.Stage.{sorted_by}
use transpose.Assemble.{Unicode, ChunkColumns, Translation}
use transpose.Assemble.Patterns.{
  word, one_or_more, matches, found, is_upper, is_decimal, lines_of, push,
}
use transpose.Assemble.Headings.{word_and_number}
use transpose.Assemble.Titles.{or_title}

-- `chunk_seq.get(id, 0)`, for the dict of the ids: the last chunk with the id counts.
unfoldable pub sequence_of : String → ℕ → List ChunkColumns → ℕ
sequence_of id sequence [] = sequence
sequence_of id sequence (c ∷ cs) =
    sequence_of id (if str_eq c.id id then c.sequence else sequence) cs

-- `line.split("\u2014")`
unfoldable pub split_dash : Text → List Text
split_dash [] = [] ∷ []
split_dash (c ∷ s) = let rest = split_dash s in if c == 0x2014 then [] ∷ rest else push c rest

-- The first two of several segments, if they are short together.
unfoldable pub from_segments : List Text → Option Text
from_segments [] = none
from_segments (s ∷ []) = none
from_segments (s ∷ t ∷ _) =
    let candidate = s ++ (codes " — " ++ t) in
    if ltb (length candidate) 120 then some candidate else none

abbrev pub starts_upper : Text → Bool
starts_upper [] = false
starts_upper (c ∷ s) = is_upper c

module _ (unicode : Unicode) where
  -- `^Introduction$`
  abbrev pub is_introduction : Text → Bool
  is_introduction line = elim (word (codes "Introduction") line) [
    | none ↦ false
    | some rest ↦ is_empty rest
  ]

  -- One round of the loop over the lines of a translation.
  unfoldable pub title_line : Text → Option Text
  unfolding strip matches word one_or_more is_decimal split_dash from_segments
  title_line raw =
      let line = strip raw in
      if ltb (length line) 5
        || (found (matches (word_and_number unicode "Chapter") line) || is_introduction line)
      then none
      else elim (from_segments (map strip (split_dash line))) [
        | some candidate ↦ some candidate
        | none ↦ if ltb (length line) 120 && starts_upper line then some line else none
      ]

  unfoldable pub first_title : List Text → Option Text
  unfolding title_line
  first_title [] = none
  first_title (l ∷ ls) = elim (title_line l) [ some t ↦ some t | none ↦ first_title ls ]

  unfoldable pub title_of_translations : List Translation → Option Text
  unfolding first_title lines_of
  title_of_translations [] = none
  title_of_translations (t ∷ ts) = elim (first_title (take 5 (lines_of t.translated_text))) [
    | some title ↦ some title
    | none ↦ title_of_translations ts
  ]

  -- `_extract_book_title`
  unfoldable pub extract_book_title : List Translation → Text → List ChunkColumns → Text
  unfolding sequence_of sorted_by title_of_translations
  extract_book_title translations fallback chunks =
      let sequence = λ (t : Translation). sequence_of t.chunk_id 0 chunks in
      or_title
        (title_of_translations
          (take 3 (sorted_by (λ t u. ltb (sequence t) (sequence u)) translations)))
        fallback
