-- ===== src/Chunk.antt =====
-- How src/transpose/pipeline/chunk.py makes one text of the pages, and a chunk of a piece of it. `is_lower` is
-- `str.islower` of one character and `encode` the tokenizer.
pub mod Joined
pub mod Paragraphs
pub mod Split
pub mod Sentences
pub mod Packed
pub mod Parts
pub mod Composed
pub mod Loop
pub mod Within
pub mod Whole
pub mod Made
mod Tests
use transpose.Prelude.{
  ℕ, ◌+◌, String, Bool, true, false, not, ◌&&◌, ◌||◌, Option, none, some, List, [], ◌∷◌, ◌++◌,
  length, ltb, leb, ◌==◌, if◌then◌else◌,
}
use transpose.Text.{Text, codes, contains, is_empty, lstrip, rstrip, is_devanagari}
use transpose.OcrClient.{Page}

-- `stripped[-1] in terminal_chars`, the quotation marks among them.
unfoldable pub is_terminal : ℕ → Bool
is_terminal c =
    c == b'.'
    || (c == b'?'
        || (c == b'!'
            || (c == 0x964
                || (c == 0x965
                    || (c == 0x2014 || (c == 34 || (c == 39 || (c == 0x201D || c == 0x2019))))))))

unfoldable pub last_is_terminal : Text → Bool
last_is_terminal [] = false
last_is_terminal (c ∷ []) = is_terminal c
last_is_terminal (c ∷ d ∷ s) = last_is_terminal (d ∷ s)

-- `_ends_with_terminal`
unfoldable pub ends_with_terminal : Text → Bool
ends_with_terminal text = last_is_terminal (rstrip text)

module _ (is_lower : ℕ → Bool) where
  unfoldable pub continues : Text → Bool
  continues [] = false
  continues (c ∷ s) = is_lower c || is_devanagari c

  -- `_starts_with_continuation`
  unfoldable pub starts_with_continuation : Text → Bool
  starts_with_continuation text = continues (lstrip text)

  -- Whether the paragraph at the end of `full_text` goes on in `text`.
  unfoldable pub joins : Text → Text → Bool
  joins full_text text =
      not (is_empty (rstrip full_text))
      && (not (is_empty (lstrip text))
          && (not (ends_with_terminal (rstrip full_text))
              && starts_with_continuation (lstrip text)))

  -- The loop, at the page `i`.
  unfoldable pub join_from : ℕ → Text → List (ℕ × ℕ) → List Page → Text × List (ℕ × ℕ)
  unfolding joins
  join_from i full_text page_boundaries [] = (full_text, page_boundaries)
  join_from i full_text page_boundaries (page ∷ pages) =
      let before =
        if (ltb 0 i && not (is_empty full_text)) && joins full_text page.raw_text
        then rstrip full_text ++ 32 ∷ []
        else full_text in
      join_from (i + 1) (before ++ (page.raw_text ++ 10 ∷ 10 ∷ []))
        (page_boundaries ++ (length before, page.page_number) ∷ []) pages

  -- `_join_cross_page_paragraphs`
  unfoldable pub join_cross_page_paragraphs : List Page → Text × List (ℕ × ℕ)
  unfolding join_from
  join_cross_page_paragraphs pages = join_from 0 [] [] pages

pub data SectionType : Type 0 where
  chapter heading verse prose : SectionType

pub record Chunk : Type 0 where
  pub sequence : ℕ
  pub source_text : Text
  pub token_count : ℕ
  pub page_start : ℕ
  pub page_end : ℕ
  pub section_type : SectionType
  pub chapter_ref : Option Text

-- The loop over the page boundaries.
unfoldable pub page_range : ℕ → List (ℕ × ℕ) → ℕ × ℕ → ℕ × ℕ
page_range chunk_start_pos [] range = range
page_range chunk_start_pos ((pos, page_num) ∷ rest) range =
    page_range chunk_start_pos rest
      (if leb pos chunk_start_pos then (page_num, page_num) else range)

unfoldable pub section_of : Option Text → SectionType
section_of none = prose
section_of (some t) =
    if contains (codes "Chapter") t
      || (contains (codes "अध्याय") t || (contains (codes "ਅਧਿਆਇ") t || contains (codes "तं") t))
    then chapter
    else prose

-- `_create_chunk`
unfoldable pub create_chunk : (Text → List ℕ) → ℕ → Text → List (ℕ × ℕ) → ℕ → Option Text → Chunk
unfolding page_range section_of
create_chunk encode sequence text page_boundaries chunk_start_pos current_chapter =
    let (page_start, page_end) = page_range chunk_start_pos page_boundaries (1, 1) in
    record {
      sequence = sequence;
      source_text = text;
      token_count = length (encode text);
      page_start = page_start;
      page_end = page_end;
      section_type = section_of current_chapter;
      chapter_ref = current_chapter;
    }
