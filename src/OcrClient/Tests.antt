-- ===== src/OcrClient/Tests.antt =====
-- Runs of src/transpose/services/ocr_client.py's splitting and merging, and the theorem at one.
use transpose.Prelude.{ℕ, ◌≡◌, refl, Option, none, some, List, [], ◌∷◌, map, range, arith}
use transpose.Text.{Text, codes}
use transpose.OcrClient.{compute_page_ranges, pages_of, Analyzed, extract_pages}
use transpose.OcrClient.Merged.{numbered, extract_pages_lem}

ranges_of_25 : compute_page_ranges 25 10 ≡ (1, 10) ∷ (11, 20) ∷ (21, 25) ∷ []
unfolding compute_page_ranges
ranges_of_25 = refl

abbrev same : Text → Text
same t = t

abbrev sheet : ℕ → Analyzed
sheet n = record { lines = codes " ओम् " ∷ codes "तत्" ∷ []; word_count = n }

abbrev analyze : Option (ℕ × ℕ) → List Analyzed
analyze none = map sheet (range 1 5)
analyze (some r) = map sheet (pages_of r)

extract_pages_lem_example :
    (extract_pages same 2 analyze (some 5) ≡ map (numbered same sheet) (range 1 5))
    × (extract_pages same 2 analyze (some 5) ≡ extract_pages same 2 analyze none)
extract_pages_lem_example = extract_pages_lem same sheet 2 5 analyze (omega arith) (refl, λ r. refl)
