-- ===== src/OcrClient/Merged.antt =====
-- What `extract_pages` of src/transpose/services/ocr_client.py gives, and what one job on the whole book gives.
use transpose.Prelude.{
  ℕ, zero, suc, ◌+◌, ◌-◌, ◌≤◌, ◌≡◌, refl, inl, inr, Option, none, some, List, [], ◌∷◌, ◌++◌, All,
  range, flatten, map, leb, ◌∙◌, sym, ap, arith, Bool-cases,
}
use transpose.Text.{Text}
use transpose.OcrClient.{
  compute_page_ranges, pages_of, Analyzed, Page, insert, sort, to_page, result_to_pages, merge,
  extract_pages,
}
use transpose.OcrClient.Ranges.{IsBatch, compute_page_ranges_lem}

pub map-append :
    {A B : Type 0} (f : A → B) (xs ys : List A) → map f (xs ++ ys) ≡ map f xs ++ map f ys
map-append f [] ys = refl
map-append f (x ∷ xs) ys = ap (λ l. f x ∷ l) (map-append f xs ys)

module _ (normalize_nfc : Text → Text) (page : ℕ → Analyzed) where
  -- The page `n` of the book.
  abbrev pub numbered : ℕ → Page
  numbered n = to_page normalize_nfc n (page n)

  result_to_pages_lem :
      (offset k first : ℕ)
      → first ≡ offset + 1
      → result_to_pages normalize_nfc offset (map page (range first k))
        ≡ map numbered (range first k)
  unfolding result_to_pages range
  result_to_pages_lem offset zero first e = refl
  result_to_pages_lem offset (suc k) first e =
      let r = result_to_pages_lem (offset + 1) k (suc first) (omega arith) in
      rw (sym e) (ap (λ l. numbered first ∷ l) (rw (sym e) at r))

  -- The service answers a job on some pages with these pages, in order.
  abbrev pub Answers : ℕ → (Option (ℕ × ℕ) → List Analyzed) → Type 0
  Answers total analyze =
      (analyze none ≡ map page (range 1 total))
      × ((r : ℕ × ℕ) → analyze (some r) ≡ map page (pages_of r))

  merge_lem :
      (size total : ℕ) (analyze : Option (ℕ × ℕ) → List Analyzed) (rs : List (ℕ × ℕ))
      → Answers total analyze
      → All (IsBatch size) rs
      → merge normalize_nfc analyze rs ≡ map numbered (flatten (map pages_of rs))
  unfolding merge
  merge_lem size total analyze [] h v = refl
  merge_lem size total analyze ((first, last) ∷ rs) h ((p, q, r), v) =
      rw
        (
          h.1 (first, last),
          result_to_pages_lem (first - 1) (last + 1 - first) first (omega arith),
          merge_lem size total analyze rs h v,
        )
        (sym (map-append numbered (pages_of (first, last)) (flatten (map pages_of rs))))

  insert-numbered :
      (n k : ℕ)
      → insert (numbered n) (map numbered (range (suc n) k))
        ≡ numbered n ∷ map numbered (range (suc n) k)
  unfolding insert range to_page
  insert-numbered n zero = refl
  insert-numbered n (suc k) = ground arith

  -- Pages in order stay as they are.
  sort-numbered : (first k : ℕ) → sort (map numbered (range first k)) ≡ map numbered (range first k)
  unfolding sort range
  sort-numbered first zero = refl
  sort-numbered first (suc k) = rw (sort-numbered (suc first) k) (insert-numbered first k)

  -- If the service answers each job with the pages asked for, in order, then a book whose number of pages is
  -- known is extracted page by page, from 1 to the last, however it is split, and just as by a single job.
  pub extract_pages_lem :
      (batch_size total : ℕ) (analyze : Option (ℕ × ℕ) → List Analyzed)
      → 1 ≤ batch_size
      → Answers total analyze
      → (extract_pages normalize_nfc batch_size analyze (some total) ≡ map numbered (range 1 total))
        × (extract_pages normalize_nfc batch_size analyze (some total)
            ≡ extract_pages normalize_nfc batch_size analyze none)
  unfolding extract_pages
  extract_pages_lem batch_size total analyze p h =
      let single : result_to_pages normalize_nfc 0 (analyze none) ≡ map numbered (range 1 total) =
        rw h.0 (result_to_pages_lem 0 total 1 (omega arith)) in
      elim (Bool-cases (leb total batch_size)) [
        | inl e ↦ rw e (single, refl)
        | inr e ↦
            let (pages, batches) = compute_page_ranges_lem total batch_size in
            let split : sort (merge normalize_nfc analyze (compute_page_ranges total batch_size))
                ≡ map numbered (range 1 total) =
              rw (merge_lem _ total analyze _ h batches, pages) (sort-numbered 1 total) in
            rw e (split, split ∙ sym single)
      ]
