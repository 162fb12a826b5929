-- ===== src/Assemble/Tests.antt =====
-- Runs of src/transpose/pipeline/assemble.py.
use transpose.Prelude.{
  ◌≢◌, true, ℕ, ◌-◌, String, ◌≡◌, refl, Option, none, some, List, [], ◌∷◌, ◌++◌, map, leb, ◌&&◌,
  if◌then◌else◌,
}
use transpose.Text.{starts_with, contains, Text, codes, rstrip, lstrip, is_space}
use transpose.Chunk.{chapter}
use transpose.Exec.{Outcome, ok, raised, pure, raise, modify, ◌>>=◌}
use transpose.Exec.Triple.{Triple, Triple-pure}
use transpose.Assemble.Stage.{Manuscript, AssembleOutput, Context, StageError, index_error, run}
use transpose.Assemble.Parted.{translated_items}
use transpose.Assemble.Complete.{Serves, IsAssembled, run-IsAssembled}
use transpose.Assemble.Lost.{without_markers-loses}
use transpose.Assemble.Markers.{
  translation_failed_placeholder, original_text_fallback_prefix, omission_note, omit_passages,
  outside,
}
use transpose.Assemble.{Glossary, PageRow, Unicode, ChunkColumns, Translation, BookRow}
use transpose.Assemble.Titles.{strip_leading_chapter_title}
use transpose.Assemble.Foreword.{clean_foreword}
use transpose.Assemble.Markers.{
  outside, omit_passages, omission_note, original_text_fallback_prefix,
  translation_failed_placeholder, without_markers,
}
use transpose.Assemble.Headings.{detect_heading, detect_chapter_boundary}

abbrev ascii_digit : ℕ → Option ℕ
ascii_digit c = if leb 48 c && leb c 57 then some (c - 48) else none

abbrev ascii : Unicode
ascii = record { decimal_value = ascii_digit; is_word = λ c. leb 97 c && leb c 122; lower = λ t. t }

heading_found : detect_heading ascii (codes "PART iv") ≡ true
unfolding detect_heading is_space
heading_found = refl

boundary_found : detect_chapter_boundary ascii (codes "tantra sutra—Method 12") ≡ true
unfolding detect_chapter_boundary is_space
boundary_found = refl

title_stripped :
    strip_leading_chapter_title ascii (codes "Chapter 2: Yoga\n— Discipline\n\nText\nMore")
    ≡ codes "Text\nMore"
unfolding strip_leading_chapter_title rstrip lstrip is_space
title_stripped = refl

cleaned : clean_foreword (codes "Dear Reader\nWarm regards,\n[Your Name]\n") ≡ codes "Dear Reader"
unfolding clean_foreword is_space lstrip
cleaned = refl

omitted :
    without_markers (codes "One\n\n[Original text — translation unavailable]\n\nTwo\n\nThree")
    ≡ codes
        "One\n\n[A passage from the original text could not be translated and has been omitted.]\n\nThree"
unfolding without_markers
omitted = refl

abbrev row : String → ℕ → String → ChunkColumns
row id n ref = record {
  id = id;
  sequence = n;
  page_start = n;
  page_end = n;
  section_type = chapter;
  chapter_ref = some (codes ref);
}

abbrev rows : List ChunkColumns
rows = row "a" 1 "Chapter 2" ∷ row "b" 2 "Chapter 10" ∷ row "c" 3 "Chapter 10" ∷ []

abbrev translation : String → String → Translation
translation id text = record { chunk_id = id; translated_text = codes text }

abbrev translations : List Translation
translations =
    translation "a" "Chapter 2: Yoga\n\nOne"
    ∷ translation "b" "Chapter 10: Karma\n\nPart I\n\nTen"
    ∷ []

abbrev book : BookRow
book = record { id = "book"; title = codes "Scan"; author = none; source_language = "hi" }

abbrev image_page : PageRow
image_page = record { page_number = 2; images = codes "u" ∷ codes "u" ∷ [] }

abbrev glossary : Glossary
glossary = record { id = "g"; entries = record { term = codes "karma"; occurrence_count = 3 } ∷ [] }

-- The model does not answer.
abbrev services : Context (List Manuscript)
services = record {
  get_book = λ id. pure (some book);
  get_chunks_for_book = λ id. pure rows;
  get_translations_for_book = λ id. pure translations;
  get_glossary_for_book = λ id. pure (some glossary);
  get_pages_for_book = λ id. pure (image_page ∷ []);
  chat = λ prompt. raise (StageError.other_error "timeout");
  create_manuscript = λ m. modify (λ ms. m ∷ ms);
  update_book_status = λ id status. pure tt;
}

abbrev Stored : Manuscript → List Manuscript → Type 0
Stored m ms = (rest : List Manuscript) × (ms ≡ m ∷ rest)

serves : Serves services "book" book rows translations Stored
serves = record {
  book_read = Triple-pure (some book) (λ s h. refl);
  chunks_read = Triple-pure rows (λ s h. refl);
  translations_read = Triple-pure translations (λ s h. refl);
  glossary_read = Triple-pure (some glossary) (λ s h. tt);
  pages_read = Triple-pure (image_page ∷ []) (λ s h. tt);
  created = λ m. record { at = λ ms h. (ms, refl) };
  kept = λ m status. Triple-pure tt (λ s h. h);
}

run-IsAssembled_example :
    Triple
      (λ _. Unit {0})
      (run ascii services "m" "book")
      (λ out w. IsAssembled Stored out w × (translated_items translations rows ≢ []))
      (λ e _. (e ≡ index_error) × (translated_items translations rows ≡ []))
run-IsAssembled_example =
    run-IsAssembled ascii services "m" "book" book rows translations Stored serves

abbrev titles : Outcome StageError AssembleOutput × List Manuscript → List Text
titles (ok out, ms) = map (λ c. c.title) out.chapters
titles (raised e, ms) = []

-- The tenth chapter comes first.
titles-run :
    titles (run ascii services "m" "book" [])
    ≡ codes "Chapter 10: Karma" ∷ codes "Chapter 2: Yoga" ∷ []
unfolding run ◌>>=◌ lstrip
titles-run = refl

without_markers-loses_example :
    without_markers
      (original_text_fallback_prefix ++ (10 ∷ (10 ∷ (codes "Two" ++ (10 ∷ (10 ∷ codes "Three"))))))
    ≡ omission_note ++ (10 ∷ (10 ∷ omit_passages outside (codes "Three")))
unfolding is_space contains starts_with
without_markers-loses_example = without_markers-loses (codes "Two") (codes "Three") refl refl refl
