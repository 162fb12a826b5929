-- ===== src/OcrClient.antt =====
-- How src/transpose/services/ocr_client.py splits a book into page ranges and merges their pages. `analyze` is the
-- document service, on a page range or on the whole document; `normalize_nfc` is `unicodedata.normalize("NFC", …)`.
-- The confidence, a mean of doubles, and what is derived from it are left out.
pub mod Ranges
pub mod Merged
pub mod Tests
use transpose.Prelude.{
  ℕ, zero, suc, ◌+◌, ◌-◌, Option, none, some, List, [], ◌∷◌, ◌++◌, min, range, leb, length, ◌==◌,
  if◌then◌else◌,
}
use transpose.Text.{Text, strip}

-- The loop: `fuel` bounds the number of ranges.
unfoldable pub ranges_from : ℕ → ℕ → ℕ → ℕ → List (ℕ × ℕ)
ranges_from zero start total_pages batch_size = []
ranges_from (suc fuel) start total_pages batch_size =
    let end = min (start + batch_size - 1) total_pages in
    let rest = ranges_from fuel (end + 1) total_pages batch_size in
    if leb start total_pages then (start, end) ∷ rest else []

-- `_compute_page_ranges`; a count that is negative is taken like 0. A range has at least one page, so there are no
-- more ranges than pages.
unfoldable pub compute_page_ranges : ℕ → ℕ → List (ℕ × ℕ)
unfolding ranges_from
compute_page_ranges total_pages batch_size =
    if total_pages == 0
    then []
    else ranges_from total_pages 1 total_pages (if batch_size == 0 then total_pages else batch_size)

-- The pages of a range, both ends included.
abbrev pub pages_of : ℕ × ℕ → List ℕ
pages_of (first, last) = range first (last + 1 - first)

-- What the service reports of a page.
pub record Analyzed : Type 0 where
  pub lines : List Text
  pub word_count : ℕ

pub record Page : Type 0 where
  pub page_number : ℕ
  pub raw_text : Text
  pub line_count : ℕ
  pub word_count : ℕ

-- `page_text += line.content + "\n"`
unfoldable pub join_lines : List Text → Text
join_lines [] = []
join_lines (l ∷ ls) = l ++ 10 ∷ join_lines ls

-- `merged.sort(key=lambda p: p.page_number)`, a stable sort.
unfoldable pub insert : Page → List Page → List Page
insert p [] = p ∷ []
insert p (q ∷ qs) =
    let rest = insert p qs in if leb p.page_number q.page_number then p ∷ q ∷ qs else q ∷ rest

unfoldable pub sort : List Page → List Page
unfolding insert
sort [] = []
sort (p ∷ ps) = insert p (sort ps)

module _ (normalize_nfc : Text → Text) where
  unfoldable pub to_page : ℕ → Analyzed → Page
  unfolding join_lines
  to_page page_num page = record {
    page_number = page_num;
    raw_text = normalize_nfc (strip (join_lines page.lines));
    line_count = length page.lines;
    word_count = page.word_count;
  }

  -- `_result_to_pages`, with the number before that of the first page.
  unfoldable pub result_to_pages : ℕ → List Analyzed → List Page
  unfolding to_page
  result_to_pages offset [] = []
  result_to_pages offset (page ∷ pages) =
      to_page (offset + 1) page ∷ result_to_pages (offset + 1) pages

  -- The loop over the ranges and their results, which `asyncio.gather` keeps in the order of the ranges.
  unfoldable pub merge : (Option (ℕ × ℕ) → List Analyzed) → List (ℕ × ℕ) → List Page
  unfolding result_to_pages
  merge analyze [] = []
  merge analyze (r ∷ rs) = result_to_pages (r.0 - 1) (analyze (some r)) ++ merge analyze rs

  unfoldable pub extract_pages : ℕ → (Option (ℕ × ℕ) → List Analyzed) → Option ℕ → List Page
  unfolding merge sort
  extract_pages batch_size analyze none = result_to_pages 0 (analyze none)
  extract_pages batch_size analyze (some total_pages) =
      if leb total_pages batch_size
      then result_to_pages 0 (analyze none)
      else sort (merge analyze (compute_page_ranges total_pages batch_size))
