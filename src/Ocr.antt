-- ===== src/Ocr.antt =====
-- The OCR stage, src/transpose/pipeline/ocr.py: which pages it adds, which of them it flags, and the progress that it
-- reports to src/transpose/services/cache.py. The texts that the PDF library finds on the pages and the pages that the
-- document service gives are arguments; images and metadata of pages are left out. The ratio is compared by products,
-- as in Gates/Ocr.antt.
pub mod Pages
mod Tests
use transpose.Prelude.{
  ℕ, suc, ◌+◌, ◌*◌, String, Bool, true, false, not, ◌&&◌, ◌||◌, Option, none, some, List, [], ◌∷◌,
  ◌++◌, length, map, take, select, any, max, ltb, ◌==◌, if◌then◌else◌,
}
use transpose.Text.{Text, strip, is_empty, count_if, is_devanagari, replacement_char}
use transpose.State.{Tables, set_progress}
use transpose.Exec.{Outcome, ok, raised, Exec, pure, raise, gets, modify, ◌>>=◌, ◌>>◌}

pub record OcrPage : Type 0 where
  pub page_number : ℕ
  pub raw_text : Text
  pub needs_review : Bool

pub data Issue : Type 0 where
  too_short : ℕ → Issue
  no_devanagari : Issue
  excessive_replacement : ℕ → Issue

abbrev pub replacement_count : Text → ℕ
replacement_count text = count_if (λ c. c == replacement_char) text

-- The three checks of `_validate_page`.
unfoldable pub length_issues : Text → List Issue
length_issues text =
    if ltb (length (strip text)) 10 then too_short (length (strip text)) ∷ [] else []

unfoldable pub script_issues : Bool → Text → List Issue
script_issues is_hindi text =
    if is_hindi && not (is_empty (strip text))
    then (if count_if is_devanagari text == 0 then no_devanagari ∷ [] else [])
    else []

unfoldable pub decode_issues : Text → List Issue
decode_issues text =
    if ltb 0 (replacement_count text)
    then (if ltb (max (length text) 1) (20 * replacement_count text)
        then excessive_replacement (replacement_count text) ∷ []
        else [])
    else []

-- `_validate_page`
unfoldable pub validate_page : Bool → Text → List Issue
unfolding length_issues script_issues decode_issues
validate_page is_hindi text =
    length_issues text ++ (script_issues is_hindi text ++ decode_issues text)

unfoldable pub check_page : Bool → OcrPage → OcrPage
unfolding validate_page
check_page is_hindi p = record p {
  needs_review = p.needs_review || not (is_empty (validate_page is_hindi p.raw_text));
}

abbrev pub mem : ℕ → List ℕ → Bool
mem n [] = false
mem n (x ∷ xs) = if x == n then true else mem n xs

-- One of the first three pages has more than a hundred characters.
unfoldable pub has_text_layer : List Text → Bool
unfolding any
has_text_layer texts = any (λ t. ltb 100 (length (strip t))) (take 3 texts)

unfoldable pub digital_pages : (Text → Text) → ℕ → List Text → List OcrPage
digital_pages normalize page_num [] = []
digital_pages normalize page_num (t ∷ ts) =
    record { page_number = page_num; raw_text = normalize (strip t); needs_review = false }
    ∷ digital_pages normalize (suc page_num) ts

abbrev pub source_pages : (Text → Text) → List Text → List OcrPage → List OcrPage
source_pages normalize texts ocr_pages =
    if has_text_layer texts then digital_pages normalize 1 texts else ocr_pages

unfoldable pub new_pages : Bool → List ℕ → List OcrPage → List OcrPage
unfolding select check_page
new_pages is_hindi existing_pages pages =
    map (check_page is_hindi) (select (λ p. not (mem p.page_number existing_pages)) pages)

pub record OcrOutput : Type 0 where
  pub pages_processed : ℕ
  pub pages_skipped : ℕ
  pub low_confidence_count : ℕ
  pub page_results : List OcrPage

abbrev pub numbers_of : List OcrPage → List ℕ
numbers_of pages = map (λ p. p.page_number) pages

-- `has_cover` says that a cover was uploaded.
abbrev pub report_progress : ℕ → String → Bool → ℕ → ℕ → Tables → Tables
report_progress now book_id true completed total db =
    set_progress now (set_progress now db book_id "ocr" completed total) book_id "cover_image_uri" 1
      1
report_progress now book_id false completed total db =
    set_progress now db book_id "ocr" completed total

pub data OcrError : Type 0 where
  book_not_found : OcrError
  unique_violation : OcrError
  service_error : String → OcrError

-- What the services answer in a run: to `get_book`, with its number of pages; to the query for the existing pages and to
-- the `DELETE`; to the download and the extraction of the pages, whether by the PDF library or by the service; to the
-- `INSERT`, apart from its constraint; and to the updates of the book and of the progress. A failure of the cover is only
-- logged, and `has_cover` says that one was uploaded.
pub record OcrReplies : Type 0 where
  pub book : Outcome OcrError (Option ℕ)
  pub reads : Outcome OcrError (Unit {0})
  pub deletes : Outcome OcrError (Unit {0})
  pub has_cover : Bool
  pub source : Outcome OcrError (List OcrPage)
  pub inserts : Outcome OcrError (Unit {0})
  pub updates : Outcome OcrError (Unit {0})
  pub progresses : Outcome OcrError (Unit {0})

-- The rows of the book's pages, whether its status is `OCR_COMPLETE`, and the tables of the state.
pub record OcrStore : Type 0 where
  pub pages : List OcrPage
  pub ocr_complete : Bool
  pub tables : Tables

abbrev pub answer : {A : Type 0} → Outcome OcrError A → Exec OcrError OcrStore A
answer o s = (o, s)

abbrev pub known_book : Option ℕ → Exec OcrError OcrStore ℕ
known_book none = raise book_not_found
known_book (some page_count) = pure page_count

unfoldable pub unique : List ℕ → Bool
unique [] = true
unique (n ∷ ns) = let rest = unique ns in not (mem n ns) && rest

-- `create_pages`: one `executemany`, which inserts all of them or none; `(book_id, page_number)` is unique.
unfoldable pub create_pages :
    Outcome OcrError (Unit {0}) → List OcrPage → Exec OcrError OcrStore (Unit {0})
unfolding unique
create_pages inserts [] = pure tt
create_pages inserts (p ∷ ps) = do
  answer inserts
  rows ← gets (λ s. s.pages ++ p ∷ ps)
  if unique (numbers_of rows)
      then modify (λ s. record s { pages = rows })
      else raise unique_violation

abbrev pub has_rows : List OcrPage → Bool
has_rows [] = false
has_rows (p ∷ ps) = true

-- `if input.force_reocr and existing_pages: …`
unfoldable pub delete_forced :
    Outcome OcrError (Unit {0}) → Bool → Exec OcrError OcrStore (Unit {0})
delete_forced deletes true = do answer deletes; modify (λ s. record s { pages = [] })
delete_forced deletes false = pure tt

-- From `create_pages` on; `skipped` is the number of existing pages.
unfoldable pub save_pages :
    OcrReplies → ℕ → String → ℕ → ℕ → List OcrPage → Exec OcrError OcrStore OcrOutput
unfolding set_progress select create_pages
save_pages replies now book_id page_count skipped page_results = do
  create_pages replies.inserts page_results
  answer replies.updates
  modify (λ s. record s { ocr_complete = true })
  answer replies.progresses
  modify (λ s. record s {
    tables =
        report_progress now book_id replies.has_cover (skipped + length page_results) page_count
          s.tables;
  })
  pure (record {
    pages_processed = length page_results;
    pages_skipped = skipped;
    low_confidence_count = length (select (λ p. p.needs_review) page_results);
    page_results = page_results;
  })

unfoldable pub run : OcrReplies → Bool → Bool → ℕ → String → Exec OcrError OcrStore OcrOutput
unfolding new_pages delete_forced save_pages
run replies force_reocr is_hindi now book_id = do
  book ← answer replies.book
  page_count ← known_book book
  answer replies.reads
  has_pages ← gets (λ s. has_rows s.pages)
  delete_forced replies.deletes (force_reocr && has_pages)
  existing_pages ← gets (λ s. numbers_of s.pages)
  source ← answer replies.source
  save_pages replies now book_id page_count (length existing_pages)
      (new_pages is_hindi existing_pages source)
