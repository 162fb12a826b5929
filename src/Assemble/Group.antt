-- ===== src/Assemble/Group.antt =====
-- How `run` of src/transpose/pipeline/assemble.py files the translated chunks under the references of chapters, and
-- `_split_chapters_by_content`. `none` is an `IndexError`.
use transpose.Prelude.{
  String, Bool, true, false, not, ◌&&◌, ◌||◌, Option, none, some, List, [], ◌∷◌, ◌++◌, length, take,
  leb, ◌==◌, if◌then◌else◌, str_eq, list_eq,
}
use transpose.Text.{Text, codes, strip, is_empty}
use transpose.Chunk.{SectionType}
use transpose.Glossary.Terms.{update}
use transpose.Assemble.{Unicode, ChunkColumns, Translation, Item}
use transpose.Assemble.Patterns.{lines_of}
use transpose.Assemble.Headings.{detect_chapter_boundary}

-- `translation_map.get(id)`, for the dict of the translations: the last one for the chunk counts.
unfoldable pub find_translation :
    String → Option Translation → List Translation → Option Translation
find_translation id found [] = found
find_translation id found (t ∷ ts) =
    find_translation id (if str_eq t.chunk_id id then some t else found) ts

abbrev pub introduction : Text
introduction = codes "Introduction"

abbrev pub is_chapter_section : SectionType → Bool
is_chapter_section SectionType.chapter = true
is_chapter_section SectionType.heading = false
is_chapter_section SectionType.verse = false
is_chapter_section SectionType.prose = false

-- `current_chapter`, when the chunk may start a new chapter.
unfoldable pub chapter_at : Text → ChunkColumns → Text
chapter_at current_chapter chunk = elim chunk.chapter_ref [
  | none ↦ current_chapter
  | some ref ↦
      if is_chapter_section chunk.section_type && not (is_empty ref) then ref else current_chapter
]

-- The translated chunks in order, each with the reference that it is filed under.
unfoldable pub placed : List Translation → Text → List ChunkColumns → List (Text × Item)
unfolding find_translation chapter_at
placed translations current_chapter [] = []
placed translations current_chapter (chunk ∷ chunks) =
    let current = chapter_at current_chapter chunk in
    let rest = placed translations current chunks in
    elim (find_translation chunk.id none translations) [
      | none ↦ rest
      | some t ↦ (current, record { chunk = chunk; translation = t }) ∷ rest
    ]

-- `chapters_data[ref].append(item)` for each of them.
unfoldable pub collect : List (Text × Item) → List (Text × List Item) → List (Text × List Item)
unfolding update
collect [] chapters_data = chapters_data
collect ((ref, item) ∷ rest) chapters_data =
    collect rest (update [] (λ items. items ++ item ∷ []) ref chapters_data)

-- `all(k == "Introduction" for k in chapters_data.keys())`
unfoldable pub only_introduction : List (Text × List Item) → Bool
only_introduction [] = true
only_introduction ((ref, items) ∷ rest) = list_eq ref introduction && only_introduction rest

module _ (unicode : Unicode) where
  -- The first of the lines that is the heading of a chapter.
  unfoldable pub boundary_in : List Text → Option Text
  unfolding strip detect_chapter_boundary
  boundary_in [] = none
  boundary_in (l ∷ ls) =
      let rest = boundary_in ls in
      if detect_chapter_boundary unicode (strip l) then some (strip l) else rest

  abbrev pub title_after : Text → Option Text → Text
  title_after current none = current
  title_after current (some t) = t

  -- The items in order, each with the heading that it is filed under.
  unfoldable pub retitled : Text → List Item → List (Text × Item)
  unfolding boundary_in lines_of
  retitled current_chapter_title [] = []
  retitled current_chapter_title (item ∷ items) =
      let found = boundary_in (take 5 (lines_of item.translation.translated_text)) in
      let title = title_after current_chapter_title found in (title, item) ∷ retitled title items

  -- `_split_chapters_by_content`
  unfoldable pub split_chapters_by_content :
      List (Text × List Item) → Option (List (Text × List Item))
  unfolding retitled collect
  split_chapters_by_content [] = none
  split_chapters_by_content ((ref, all_chunks) ∷ []) =
      let new_chapters_data = collect (retitled introduction all_chunks) [] in
      some (if leb (length new_chapters_data) 1 then (ref, all_chunks) ∷ [] else new_chapters_data)
  split_chapters_by_content (c ∷ d ∷ chapters_data) = some (c ∷ d ∷ chapters_data)

  -- `chapters_data` as the chapters are built of it.
  unfoldable pub chapters_of :
      List ChunkColumns → List Translation → Option (List (Text × List Item))
  unfolding placed collect only_introduction split_chapters_by_content
  chapters_of chunks translations =
      let chapters_data = collect (placed translations introduction chunks) [] in
      if length chapters_data == 1 || only_introduction chapters_data
      then split_chapters_by_content chapters_data
      else some chapters_data
