-- ===== src/Chunk/Joined.antt =====
-- What the text and the page boundaries of src/transpose/pipeline/chunk.py keep of the pages.
use transpose.Prelude.{
  leb, ℕ, ◌+◌, ◌≡◌, refl, Bool, true, false, Option, inl, inr, List, [], ◌∷◌, ◌++◌, flatten, map,
  if◌then◌else◌, Bool-cases, append-nil, append_assoc, ◌∙◌, sym, ap, arith,
}
use transpose.Text.{Text, is_space, rstrip}
use transpose.OcrClient.{Page}
use transpose.OcrClient.Merged.{map-append}
use transpose.Chunk.{join_from, join_cross_page_paragraphs, page_range, create_chunk}

-- What is left of a text without its white space.
unfoldable pub visible : Text → Text
visible [] = []
visible (c ∷ s) = let rest = visible s in if is_space c then rest else c ∷ rest

pub visible-append : (s t : Text) → visible (s ++ t) ≡ visible s ++ visible t
unfolding visible
visible-append [] t = refl
visible-append (c ∷ s) t = elim (Bool-cases (is_space c)) [
  | inl e ↦ rw e (visible-append s t)
  | inr e ↦ rw e (ap (λ l. c ∷ l) (visible-append s t))
]

pub visible-rstrip : (s : Text) → visible (rstrip s) ≡ visible s
unfolding visible rstrip
visible-rstrip [] = refl
visible-rstrip (c ∷ s) = by_rest c s (rstrip s) refl (visible-rstrip s)
  where
    by_rest :
        (c : ℕ) (s r : Text)
        → rstrip s ≡ r
        → visible (rstrip s) ≡ visible s
        → visible (rstrip (c ∷ s)) ≡ visible (c ∷ s)
    by_rest c s [] e ih =
        let none_left : [] ≡ visible s = rw e at ih in rw e (ground (arith, none_left))
    by_rest c s (d ∷ r) e ih = rw e (rw (sym ih, e) refl)

visible-joined :
    (b : Bool) (full : Text) → visible (if b then rstrip full ++ 32 ∷ [] else full) ≡ visible full
unfolding visible is_space
visible-joined true full = rw (visible-append, visible-rstrip) (append-nil (visible full))
visible-joined false full = refl

visible-page :
    (before text : Text)
    → visible (before ++ (text ++ 10 ∷ 10 ∷ [])) ≡ visible before ++ visible text
unfolding visible is_space
visible-page before text =
    rw (visible-append, visible-append) (ap (λ l. visible before ++ l) (append-nil (visible text)))

abbrev pub number_of : ℕ × ℕ → ℕ
number_of b = b.1

module _ (is_lower : ℕ → Bool) where
  join_from_lem :
      (i : ℕ) (full : Text) (bounds : List (ℕ × ℕ)) (pages : List Page)
      → (visible (join_from is_lower i full bounds pages).0
          ≡ visible full ++ flatten (map (λ p. visible p.raw_text) pages))
        × (map number_of (join_from is_lower i full bounds pages).1
            ≡ map number_of bounds ++ map (λ p. p.page_number) pages)
  unfolding join_from
  join_from_lem i full bounds [] =
      (sym (append-nil (visible full)), sym (append-nil (map number_of bounds)))
  join_from_lem i full bounds (p ∷ ps) =
      let (texts, numbers) = join_from_lem (i + 1) _ _ ps in
      (
        texts
            ∙ rw (visible-page, visible-joined)
                (append_assoc (visible full) (visible p.raw_text) _),
        numbers ∙ rw map-append (append_assoc (map number_of bounds) (p.page_number ∷ []) _),
      )

  -- The text of a book keeps what is no white space of its pages, all of it and in order, however paragraphs
  -- are joined across pages; and there is one boundary for each page, in order.
  pub join_cross_page_paragraphs_lem :
      (pages : List Page)
      → (visible (join_cross_page_paragraphs is_lower pages).0
          ≡ flatten (map (λ p. visible p.raw_text) pages))
        × (map number_of (join_cross_page_paragraphs is_lower pages).1
            ≡ map (λ p. p.page_number) pages)
  unfolding join_cross_page_paragraphs
  join_cross_page_paragraphs_lem pages = unfold visible in join_from_lem 0 [] [] pages

-- The range holds one page, whichever of two pages it starts from.
either_page :
    (b : Bool) (pos : ℕ) (bounds : List (ℕ × ℕ)) (n from : ℕ)
    → ((m : ℕ) → (page_range pos bounds (m, m)).0 ≡ (page_range pos bounds (m, m)).1)
    → (page_range pos bounds (if b then (n, n) else (from, from))).0
      ≡ (page_range pos bounds (if b then (n, n) else (from, from))).1
either_page true pos bounds n from h = h n
either_page false pos bounds n from h = h from

page_range_lem :
    (pos : ℕ) (bounds : List (ℕ × ℕ)) (from : ℕ)
    → (page_range pos bounds (from, from)).0 ≡ (page_range pos bounds (from, from)).1
unfolding page_range
page_range_lem pos [] from = refl
page_range_lem pos ((p, n) ∷ bounds) from =
    either_page (leb p pos) pos bounds n from (page_range_lem pos bounds)

-- A chunk ends on the page on which it starts, however long it is.
pub create_chunk-one_page :
    (encode : Text → List ℕ) (sequence : ℕ) (text : Text) (bounds : List (ℕ × ℕ)) (pos : ℕ)
    (current_chapter : Option Text)
    → (create_chunk encode sequence text bounds pos current_chapter).page_end
      ≡ (create_chunk encode sequence text bounds pos current_chapter).page_start
unfolding create_chunk
create_chunk-one_page encode sequence text bounds pos current_chapter =
    sym (page_range_lem pos bounds 1)
