-- ===== src/OcrClient/Ranges.antt =====
-- What `_compute_page_ranges` of src/transpose/services/ocr_client.py computes.
use transpose.Prelude.{
  ℕ, zero, suc, ◌+◌, ◌-◌, ◌≤◌, ◌<◌, ◌≡◌, refl, false, inl, inr, ◌∷◌, ◌++◌, min, All, range, flatten,
  map, leb, ◌==◌, if◌then◌else◌, ◌∙◌, ap, arith, Bool-cases,
}
use transpose.OcrClient.{ranges_from, compute_page_ranges, pages_of}

-- A range and the next one are one range.
range-append : (n a b m c : ℕ) → m ≡ n + a → c ≡ a + b → range n a ++ range m b ≡ range n c
unfolding range
range-append n zero b m c e e' =
    let m_lem : m ≡ n = omega arith in let c_lem : c ≡ b = omega arith in rw (m_lem, c_lem) refl
range-append n (suc a) b m zero e e' = absurd (nonzero e')
  where
    nonzero : 0 ≡ suc a + b → ⊥
    nonzero h = omega arith
range-append n (suc a) b m (suc c) e e' =
    ap (λ l. n ∷ l) (range-append (suc n) a b m c (omega arith) (omega arith))

-- A range of at least one page and at most `batch_size`.
abbrev pub IsBatch : ℕ → ℕ × ℕ → Type 0
IsBatch batch_size (first, last) = (1 ≤ first) × (first ≤ last) × (last < first + batch_size)

-- What is left of the pages, split into ranges: none is lost or repeated, and each range is a batch.
ranges_from_lem :
    (fuel start total size : ℕ)
    → 1 ≤ start
    → 1 ≤ size
    → total + 1 - start ≤ fuel
    → (flatten (map pages_of (ranges_from fuel start total size)) ≡ range start (total + 1 - start))
      × All (IsBatch size) (ranges_from fuel start total size)
unfolding ranges_from
ranges_from_lem zero start total size p q h =
    let none_left : total + 1 - start ≡ 0 = omega arith in (rw none_left (unfold range in refl), tt)
ranges_from_lem (suc fuel) start total size p q h = elim (Bool-cases (leb start total)) [
  | inl e ↦
      let end = min (start + size - 1) total in
      let (pages, batches) =
        ranges_from_lem fuel (end + 1) total size (omega arith) q (ground arith) in
      rw e (
        ap (λ l. range start (end + 1 - start) ++ l) pages
            ∙ range-append start (end + 1 - start) (total + 1 - (end + 1)) (end + 1)
                (total + 1 - start) (ground arith) (ground arith),
        ((p, ground arith, ground arith), batches),
      )
  | inr e ↦
      let none_left : total + 1 - start ≡ 0 = ground arith in
      rw (e, none_left) (unfold range in refl, tt)
]

from_first :
    (total size : ℕ)
    → 1 ≤ size
    → (flatten (map pages_of (ranges_from total 1 total size)) ≡ range 1 total)
      × All (IsBatch size) (ranges_from total 1 total size)
from_first total size h =
    let all_of_them : total + 1 - 1 ≡ total = omega arith in
    let (pages, batches) = ranges_from_lem total 1 total size (omega arith) h (omega arith) in
    (rw all_of_them at pages, batches)

nonzero : (n : ℕ) → (suc n == 0) ≡ false
nonzero n = ground arith

-- The ranges hold the pages from 1 to the last, each once and in order, and each range has a page and at
-- most `batch_size` of them; a `batch_size` of 0 stands for one range of all the pages.
pub compute_page_ranges_lem :
    (total size : ℕ)
    → (flatten (map pages_of (compute_page_ranges total size)) ≡ range 1 total)
      × All (IsBatch (if size == 0 then total else size)) (compute_page_ranges total size)
unfolding compute_page_ranges
compute_page_ranges_lem zero size = (unfold range in refl, tt)
compute_page_ranges_lem (suc n) zero = rw (nonzero n) (from_first (suc n) (suc n) (omega arith))
compute_page_ranges_lem (suc n) (suc size) =
    rw (nonzero n, nonzero size) (from_first (suc n) (suc size) (omega arith))
