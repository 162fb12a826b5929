-- ===== src/Chunk/Made.antt =====
-- The chunks that a run of src/transpose/pipeline/chunk.py makes, and the overlap of none.
use transpose.Prelude.{
  ℕ, suc, ◌+◌, ◌≡◌, inl, inr, refl, sym, ap, ◌∙◌, Bool, false, not, ◌&&◌, Option, none, some, List,
  [], ◌∷◌, ◌++◌, length, length-append, map, range, All, arith, Bool-cases, ltb, leb,
}
use transpose.Text.{Text, strip, is_empty, is_blank}
use transpose.OcrClient.{Page}
use transpose.OcrClient.Merged.{map-append}
use transpose.Chunk.{Chunk, create_chunk, join_cross_page_paragraphs}
use transpose.Chunk.Paragraphs.{is_chapter, break_before_markers, paragraphs_of}
use transpose.Chunk.Loop.{
  ChunkInput, Loop, begin, line_ends, chunk_at, save, start_chapter, next_chunk, get_overlap_text,
  last_tokens, add_part, add_parts, add_paragraph, add_paragraphs, save_last, chunked, make_chunks,
  run,
}
use transpose.Chunk.Within.{Kept}
use transpose.Chunk.Whole.{pieces_of, save_last-Kept}

range-suc : (n k : ℕ) → range n (suc k) ≡ range n k ++ (n + k) ∷ []
unfolding range
range-suc n ℕ.zero = ap (λ m. m ∷ []) (omega arith)
range-suc n (suc k) =
    ap (λ l. n ∷ l) (range-suc (suc n) k ∙ ap (λ m. range (suc n) k ++ m ∷ []) (omega arith))

-- Chunks are numbered from 0.
abbrev pub Numbered : List Chunk → Type 0
Numbered chunks = map (λ c. c.sequence) chunks ≡ range 0 (length chunks)

-- And the next one gets the next number.
abbrev Counting : Loop → Type 0
Counting l = (l.sequence ≡ length l.chunks) × Numbered l.chunks

Numbered-append :
    (chunks : List Chunk) (c : Chunk)
    → c.sequence ≡ length chunks
    → Numbered chunks
    → Numbered (chunks ++ c ∷ [])
Numbered-append chunks c e h =
    let longer : length (chunks ++ c ∷ []) ≡ suc (length chunks) =
      omega (arith, length-append chunks (c ∷ [])) in
    let last : c.sequence ≡ 0 + length chunks = omega (arith, e) in
    map-append (λ c. c.sequence) chunks (c ∷ [])
    ∙ (ap (λ l. l ++ c.sequence ∷ []) h
        ∙ (ap (λ m. range 0 (length chunks) ++ m ∷ []) last
            ∙ (sym (range-suc 0 (length chunks)) ∙ ap (range 0) (sym longer))))

module _ (encode : Text → List ℕ) (decode : List ℕ → Text) (split : Text → List Text)
    (input : ChunkInput) (full_text : Text) (page_boundaries : List (ℕ × ℕ)) where
  sequence-chunk_at :
      (n : ℕ) (text : Text) (pos : Option ℕ) (c : Option Text)
      → (chunk_at encode decode split input full_text page_boundaries n text pos c).sequence ≡ n
  unfolding create_chunk
  sequence-chunk_at n text none c = refl
  sequence-chunk_at n text (some pos) c = refl

  save-Counting :
      (l : Loop)
      → Counting l
      → Counting (save encode decode split input full_text page_boundaries l)
  unfolding save
  save-Counting l (e, h) = (
    omega (
      arith,
      e,
      length-append l.chunks (
          chunk_at encode decode split input full_text page_boundaries l.sequence
            (strip l.current_chunk_text) l.chunk_start_pos l.current_chapter
          ∷ []),
    ),
    Numbered-append l.chunks _
        (sequence-chunk_at l.sequence _ l.chunk_start_pos l.current_chapter ∙ e) h,
  )

  start_chapter-Counting :
      (l : Loop) (para : Text)
      → Counting l
      → Counting (start_chapter encode decode split input full_text page_boundaries l para)
  unfolding start_chapter
  start_chapter-Counting l para h = elim (Bool-cases (is_empty l.current_chunk_text)) [
    | inl e ↦ rw e h
    | inr e ↦ rw e (save-Counting l h)
  ]

  add_part-Counting :
      (l : Loop) (part : Text)
      → Counting l
      → Counting (add_part encode decode split input full_text page_boundaries l part)
  unfolding add_part next_chunk
  add_part-Counting l part h =
      elim (Bool-cases (
        ltb input.target_chunk_tokens (l.current_chunk_tokens + length (encode part))
        && not (is_empty l.current_chunk_text))) [
          | inl e ↦ rw e (save-Counting l h)
          | inr e ↦ rw e h
        ]

  add_parts-Counting :
      (l : Loop) (parts : List Text)
      → Counting l
      → Counting (add_parts encode decode split input full_text page_boundaries l parts)
  unfolding add_parts
  add_parts-Counting l [] h = h
  add_parts-Counting l (p ∷ ps) h =
      add_parts-Counting (add_part encode decode split input full_text page_boundaries l p) ps
        (add_part-Counting l p h)

  add_paragraph-Counting :
      (l : Loop) (para : Text)
      → Counting l
      → Counting (add_paragraph encode decode split input full_text page_boundaries l para)
  unfolding add_paragraph
  add_paragraph-Counting l para h = elim (Bool-cases (is_blank para)) [
    | inl e ↦ rw e h
    | inr e ↦ rw e (elim (Bool-cases (is_chapter para)) [
      | inl k ↦ rw k (start_chapter-Counting l para h)
      | inr k ↦ rw k (add_parts-Counting l (split para) h)
    ])
  ]

  add_paragraphs-Counting :
      (l : Loop) (paras : List Text)
      → Counting l
      → Counting (add_paragraphs encode decode split input full_text page_boundaries l paras)
  unfolding add_paragraphs
  add_paragraphs-Counting l [] h = h
  add_paragraphs-Counting l (p ∷ ps) h =
      add_paragraphs-Counting
        (add_paragraph encode decode split input full_text page_boundaries l p) ps
        (add_paragraph-Counting l p h)

  save_last-Numbered :
      (paras : List Text)
      → Numbered (
          save_last encode decode split input full_text page_boundaries
            (add_paragraphs encode decode split input full_text page_boundaries begin paras))
  unfolding save_last
  save_last-Numbered paras =
      let l = add_paragraphs encode decode split input full_text page_boundaries begin paras in
      let h = add_paragraphs-Counting begin paras (refl, unfold range in refl) in
      elim (Bool-cases (is_blank l.current_chunk_text)) [
        | inl e ↦ rw e (h.1)
        | inr e ↦ rw e ((save-Counting l h).1)
      ]

overlap_of_none :
    (encode : Text → List ℕ) (decode : List ℕ → Text) (split : Text → List Text)
    (input : ChunkInput) (full_text : Text) (page_boundaries : List (ℕ × ℕ)) (t : Text) (token : ℕ)
    (tokens : List ℕ)
    → input.overlap_tokens ≡ 0
    → ((t : Text) → decode (encode t) ≡ t)
    → encode t ≡ token ∷ tokens
    → get_overlap_text encode decode split input full_text page_boundaries t ≡ t ++ line_ends
unfolding get_overlap_text last_tokens
overlap_of_none encode decode split input full_text page_boundaries t token tokens none_asked
      inverse some_token =
    let too_long : leb (length (encode t)) 0 ≡ false = rw some_token (ground arith) in
    rw (none_asked, too_long, inverse t) refl

-- If no overlap is asked for and the tokenizer decodes what it encodes, a chunk that has a token is nonetheless
-- repeated whole at the start of the next one, unless it is the first behind a chapter's marker.
pub next_chunk-repeats :
    (encode : Text → List ℕ) (decode : List ℕ → Text) (split : Text → List Text)
    (input : ChunkInput) (full_text : Text) (page_boundaries : List (ℕ × ℕ)) (l : Loop)
    (part : Text) (token : ℕ) (tokens : List ℕ)
    → input.overlap_tokens ≡ 0
    → ((t : Text) → decode (encode t) ≡ t)
    → encode l.current_chunk_text ≡ token ∷ tokens
    → l.overlap_reset ≡ false
    → (next_chunk encode decode split input full_text page_boundaries l part).current_chunk_text
      ≡ (l.current_chunk_text ++ line_ends) ++ (part ++ line_ends)
unfolding next_chunk
next_chunk-repeats encode decode split input full_text page_boundaries l part token tokens
      none_asked inverse some_token not_reset =
    rw not_reset (
      ap (λ t. t ++ (part ++ line_ends))
        (overlap_of_none encode decode split input full_text page_boundaries l.current_chunk_text
          token tokens none_asked inverse some_token))

-- The chunks that a run makes of the pages are numbered from 0 in order, and each piece of each paragraph stands in one
-- of them, white space aside: a paragraph with a chapter marker as it is, any other in the parts that it is split into.
pub run_makes_chunks :
    (is_lower : ℕ → Bool) (encode : Text → List ℕ) (decode : List ℕ → Text)
    (split : Text → List Text) (input : ChunkInput) (page : Page) (pages : List Page)
    → (chunks : List Chunk) × (run is_lower encode decode split input [] (page ∷ pages)
        ≡ chunked chunks)
      × Numbered chunks
      × All
          (λ para. All (λ p. Kept p chunks) (pieces_of split para))
          (paragraphs_of
            (break_before_markers false (join_cross_page_paragraphs is_lower (page ∷ pages)).0))
unfolding run make_chunks
run_makes_chunks is_lower encode decode split input page pages =
    let (joined, page_boundaries) = join_cross_page_paragraphs is_lower (page ∷ pages) in
    let full_text : Text = break_before_markers false joined in
    (
      _,
      refl,
      save_last-Numbered encode decode split input full_text page_boundaries
          (paragraphs_of full_text),
      save_last-Kept encode decode split input full_text page_boundaries (paragraphs_of full_text),
    )
