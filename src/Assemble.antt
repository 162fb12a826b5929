-- ===== src/Assemble.antt =====
-- The manuscript of src/transpose/pipeline/assemble.py: what the stage reads and writes, and what it uses of
-- Python's `re` and `str`. `Unicode` is the character database behind these.
pub mod Patterns
pub mod Headings
pub mod Titles
pub mod BookTitle
pub mod Foreword
pub mod Markers
pub mod Group
pub mod Render
pub mod Stage
pub mod Ordered
pub mod Filed
pub mod Parted
pub mod Built
pub mod Unmarked
pub mod Lost
pub mod Gated
pub mod Complete
mod Tests
use transpose.Prelude.{ℕ, String, Bool, Option, List}
use transpose.Text.{Text}
use transpose.Chunk.{SectionType}

-- `unicodedata.decimal`, `\w` and `str.lower`
pub record Unicode : Type 0 where
  pub decimal_value : ℕ → Option ℕ
  pub is_word : ℕ → Bool
  pub lower : Text → Text

-- The columns of a chunk that the stage reads.
pub record ChunkColumns : Type 0 where
  pub id : String
  pub sequence : ℕ
  pub page_start : ℕ
  pub page_end : ℕ
  pub section_type : SectionType
  pub chapter_ref : Option Text

pub record Translation : Type 0 where
  pub chunk_id : String
  pub translated_text : Text

-- `{"chunk": chunk, "translation": translation}`
pub record Item : Type 0 where
  pub chunk : ChunkColumns
  pub translation : Translation

-- A page with the `blob_uri` of each of its image references, or "".
pub record PageRow : Type 0 where
  pub page_number : ℕ
  pub images : List Text

-- An entry of the glossary; its script and definition do not reach the output.
pub record Term : Type 0 where
  pub term : Text
  pub occurrence_count : ℕ

pub record Glossary : Type 0 where
  pub id : String
  pub entries : List Term

pub record BookRow : Type 0 where
  pub id : String
  pub title : Text
  pub author : Option Text
  pub source_language : String

-- An entry of the table of contents. One of level 2 has an anchor; a chapter's has neither key.
pub record TocEntry : Type 0 where
  pub chapter : ℕ
  pub title : Text
  pub anchor : Option Text

pub record Chapter : Type 0 where
  pub number : ℕ
  pub title : Text
  pub content_html : Text
