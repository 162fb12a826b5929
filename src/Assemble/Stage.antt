-- ===== src/Assemble/Stage.antt =====
-- `run` of src/transpose/pipeline/assemble.py. Context are an interface on the state `W` of the world; the identifier of
-- the manuscript, a `uuid4()`, is an argument.
use transpose.Prelude.{
  ℕ, zero, suc, String, Option, none, some, List, [], ◌++◌, length, ltb, if◌then◌else◌,
}
use transpose.Text.{Text, codes, is_empty}
use transpose.Exec.{Exec, pure, raise, attempt, ◌>>=◌}
use transpose.Glossary.Stage.{text_lt, sorted_by}
use transpose.Transcript.Stamps.{decimal}
use transpose.Assemble.{
  Unicode, ChunkColumns, Translation, Item, PageRow, Term, Glossary, BookRow, TocEntry, Chapter,
}
use transpose.Assemble.BookTitle.{extract_book_title}
use transpose.Assemble.Foreword.{clean_foreword, foreword_prompt}
use transpose.Assemble.Group.{chapters_of}
use transpose.Assemble.Render.{empty_assembly, add_chapters}

pub data StageError : Type 0 where
  book_not_found : String → StageError
  index_error : StageError
  other_error : String → StageError

pub record Manuscript : Type 0 where
  pub id : String
  pub book_id : String
  pub title : Text
  pub author : Option Text
  pub chapters : List Chapter
  pub glossary_id : String
  pub table_of_contents : List TocEntry
  pub source_language : String
  pub total_chunks : ℕ
  pub total_chapters : ℕ
  pub foreword : Option Text

pub record AssembleOutput : Type 0 where
  pub book_id : String
  pub manuscript_id : String
  pub title : Text
  pub author : Option Text
  pub chapters : List Chapter
  pub glossary_id : Option String
  pub table_of_contents : List TocEntry
  pub foreword : Option Text

-- `ctx.db` and `ctx.llm.chat`.
pub record Context (W : Type 0) : Type 0 where
  pub get_book : String → Exec StageError W (Option BookRow)
  pub get_chunks_for_book : String → Exec StageError W (List ChunkColumns)
  pub get_translations_for_book : String → Exec StageError W (List Translation)
  pub get_glossary_for_book : String → Exec StageError W (Option Glossary)
  pub get_pages_for_book : String → Exec StageError W (List PageRow)
  pub chat : Text → Exec StageError W Text
  pub create_manuscript : Manuscript → Exec StageError W (Unit {0})
  pub update_book_status : String → String → Exec StageError W (Unit {0})

abbrev pub glossary_id_of : Option Glossary → Option String
glossary_id_of none = none
glossary_id_of (some g) = some g.id

-- `glossary_id or book.id`
abbrev pub or_book : Option Glossary → BookRow → String
or_book none book = book.id
or_book (some g) book = g.id

-- `sorted(chapters_data.items())`; the references differ.
unfoldable pub by_reference : List (Text × List Item) → List (Text × List Item)
unfolding sorted_by text_lt
by_reference chapters_data = sorted_by (λ x y. text_lt x.0 y.0) chapters_data

-- `sorted(glossary.entries, key=lambda e: e.occurrence_count, reverse=True)`
unfoldable pub by_occurrence : List Term → List Term
unfolding sorted_by
by_occurrence entries = sorted_by (λ x y. ltb y.occurrence_count x.occurrence_count) entries

unfoldable pub passages_note : ℕ → Text
unfolding decimal
passages_note zero = []
passages_note (suc n) =
    codes "\n\nNote: "
    ++ (decimal (suc n)
        ++ codes
            " passage(s) in this text could not be fully translated due to content processing limitations. These passages are presented in their original language and marked accordingly.")

module _ (unicode : Unicode) {W : Type 0} (svc : Context W) where
  -- The foreword, if there is a glossary with an entry and the model answers.
  unfoldable pub foreword_of : Text → Option Glossary → ℕ → Exec StageError W (Option Text)
  unfolding attempt by_occurrence clean_foreword passages_note
  foreword_of title none untranslated = pure none
  foreword_of title (some g) untranslated =
      if is_empty g.entries
      then pure none
      else attempt
          (do
            answer ← svc.chat (foreword_prompt title (by_occurrence g.entries))
            pure (some (clean_foreword answer ++ passages_note untranslated)))
          λ _. pure none

  -- Behind the grouping: the chapters are built of `chapters_data`, or the `IndexError` is raised.
  unfoldable pub assemble :
      String
      → String
      → BookRow
      → List ChunkColumns
      → List Translation
      → Option Glossary
      → List PageRow
      → Option (List (Text × List Item))
      → Exec StageError W AssembleOutput
  unfolding by_reference add_chapters extract_book_title foreword_of
  assemble manuscript_id book_id book chunks translations glossary pages none = raise index_error
  assemble manuscript_id book_id book chunks translations glossary pages (some chapters_data) =
      let (chapters, a) =
        add_chapters unicode pages 1 (by_reference chapters_data) empty_assembly in
      let translated_title = extract_book_title unicode translations book.title chunks in
      do
        foreword ← foreword_of translated_title glossary a.untranslated_passages
        _ ← svc.create_manuscript (record {
          id = manuscript_id;
          book_id = book_id;
          title = translated_title;
          author = book.author;
          chapters = chapters;
          glossary_id = or_book glossary book;
          table_of_contents = a.toc;
          source_language = book.source_language;
          total_chunks = length chunks;
          total_chapters = length chapters;
          foreword = foreword;
        })
        _ ← svc.update_book_status book_id "assembled"
        pure (record {
          book_id = book_id;
          manuscript_id = manuscript_id;
          title = translated_title;
          author = book.author;
          chapters = chapters;
          glossary_id = glossary_id_of glossary;
          table_of_contents = a.toc;
          foreword = foreword;
        })

  abbrev pub found_book : String → Option BookRow → Exec StageError W BookRow
  found_book book_id none = raise (book_not_found book_id)
  found_book book_id (some book) = pure book

  unfoldable pub run : String → String → Exec StageError W AssembleOutput
  unfolding assemble chapters_of
  run manuscript_id book_id = do
    answer ← svc.get_book book_id
    book ← found_book book_id answer
    chunks ← svc.get_chunks_for_book book_id
    translations ← svc.get_translations_for_book book_id
    glossary ← svc.get_glossary_for_book book_id
    pages ← svc.get_pages_for_book book_id
    assemble manuscript_id book_id book chunks translations glossary pages
        (chapters_of unicode chunks translations)
