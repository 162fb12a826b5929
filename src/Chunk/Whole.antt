-- ===== src/Chunk/Whole.antt =====
-- What the loop of src/transpose/pipeline/chunk.py keeps of the paragraphs.
use transpose.Prelude.{
  ℕ, ◌+◌, ◌≡◌, inl, inr, refl, sym, true, not, ◌&&◌, Option, none, some, List, [], ◌∷◌, ◌++◌,
  length, All, All-weaken, Bool-cases, ltb, if◌then◌else◌,
}
use transpose.Text.{Text, strip, is_empty, is_blank}
use transpose.Chunk.{create_chunk}
use transpose.Chunk.Joined.{visible, visible-append}
use transpose.Chunk.Paragraphs.{is_chapter}
use transpose.Chunk.Loop.{
  ChunkInput, Loop, begin, line_ends, chunk_at, save, start_chapter, next_chunk, add_part,
  add_parts, add_paragraph, add_paragraphs, save_last,
}
use transpose.Chunk.Within.{
  Any-last, Within, Within-right, Within-middle, nothing-Within, visible-strip, visible-blank, Kept,
  InLoop, Kept-more,
}

-- What of a paragraph has to be in a chunk: a marker as it is, and the parts of another.
abbrev pub pieces_of : (Text → List Text) → Text → List Text
pieces_of split para =
    if is_blank para then [] else if is_chapter para then para ∷ [] else split para

module _ (encode : Text → List ℕ) (decode : List ℕ → Text) (split : Text → List Text)
    (input : ChunkInput) (full_text : Text) (page_boundaries : List (ℕ × ℕ)) where
  source_text-chunk_at :
      (n : ℕ) (text : Text) (pos : Option ℕ) (c : Option Text)
      → (chunk_at encode decode split input full_text page_boundaries n text pos c).source_text
        ≡ text
  unfolding create_chunk
  source_text-chunk_at n text none c = refl
  source_text-chunk_at n text (some pos) c = refl

  -- What is in the loop is in the chunks once the current one is saved.
  Kept-save :
      (p : Text) (l : Loop)
      → InLoop p l
      → Kept p (save encode decode split input full_text page_boundaries l).chunks
  unfolding save
  Kept-save p l h = elim h [
    | inl k ↦ Kept-more p l.chunks _ k
    | inr w ↦ inr (
        Any-last _ l.chunks _ (
          rw
            (
              source_text-chunk_at l.sequence (strip l.current_chunk_text) l.chunk_start_pos
                  l.current_chapter,
              visible-strip l.current_chunk_text,
            )
            w))
  ]

  no_text :
      (p t : Text) → is_empty t ≡ true → Within (visible p) (visible t) → Within (visible p) []
  unfolding visible
  no_text p [] e w = w
  no_text p (c ∷ t) e w = cc

  InLoop-start_chapter :
      (p : Text) (l : Loop) (para : Text)
      → InLoop p l
      → InLoop p (start_chapter encode decode split input full_text page_boundaries l para)
  unfolding start_chapter
  InLoop-start_chapter p l para h = elim (Bool-cases (is_empty l.current_chunk_text)) [
    | inl e ↦ rw e (elim h [
      | inl k ↦ inl k
      | inr w ↦ inl (inl (nothing-Within (visible p) (no_text p l.current_chunk_text e w)))
    ])
    | inr e ↦ rw e (inl (Kept-save p l h))
  ]

  -- The marker is in the text of the chapter's first chunk.
  start_chapter-InLoop :
      (l : Loop) (para : Text)
      → InLoop para (start_chapter encode decode split input full_text page_boundaries l para)
  unfolding start_chapter
  start_chapter-InLoop l para =
      inr (rw (visible-append para line_ends) (Within-middle [] (visible para) (visible line_ends)))

  InLoop-add_part :
      (p : Text) (l : Loop) (part : Text)
      → InLoop p l
      → InLoop p (add_part encode decode split input full_text page_boundaries l part)
  unfolding add_part next_chunk
  InLoop-add_part p l part h =
      elim (Bool-cases (
        ltb input.target_chunk_tokens (l.current_chunk_tokens + length (encode part))
        && not (is_empty l.current_chunk_text))) [
          | inl e ↦ rw e (inl (Kept-save p l h))
          | inr e ↦ rw e (elim h [
            | inl k ↦ inl k
            | inr w ↦ inr (
                rw (visible-append l.current_chunk_text (part ++ line_ends)) (Within-right _ _ _ w))
          ])
        ]

  part-Within :
      (part before : Text) → Within (visible part) (visible (before ++ (part ++ line_ends)))
  part-Within part before =
      rw (visible-append before (part ++ line_ends), visible-append part line_ends)
        (Within-middle (visible before) (visible part) (visible line_ends))

  add_part-InLoop :
      (l : Loop) (part : Text)
      → InLoop part (add_part encode decode split input full_text page_boundaries l part)
  unfolding add_part next_chunk
  add_part-InLoop l part =
      elim (Bool-cases (
        ltb input.target_chunk_tokens (l.current_chunk_tokens + length (encode part))
        && not (is_empty l.current_chunk_text))) [
          | inl e ↦ rw e (inr (part-Within part _))
          | inr e ↦ rw e (inr (part-Within part l.current_chunk_text))
        ]

  InLoop-add_parts :
      (p : Text) (l : Loop) (parts : List Text)
      → InLoop p l
      → InLoop p (add_parts encode decode split input full_text page_boundaries l parts)
  unfolding add_parts
  InLoop-add_parts p l [] h = h
  InLoop-add_parts p l (q ∷ qs) h =
      InLoop-add_parts p (add_part encode decode split input full_text page_boundaries l q) qs
        (InLoop-add_part p l q h)

  add_parts-InLoop :
      (l : Loop) (parts : List Text)
      → All
          (λ p. InLoop p (add_parts encode decode split input full_text page_boundaries l parts))
          parts
  unfolding add_parts
  add_parts-InLoop l [] = tt
  add_parts-InLoop l (q ∷ qs) = (
    InLoop-add_parts q (add_part encode decode split input full_text page_boundaries l q) qs
        (add_part-InLoop l q),
    add_parts-InLoop (add_part encode decode split input full_text page_boundaries l q) qs,
  )

  InLoop-add_paragraph :
      (p : Text) (l : Loop) (para : Text)
      → InLoop p l
      → InLoop p (add_paragraph encode decode split input full_text page_boundaries l para)
  unfolding add_paragraph
  InLoop-add_paragraph p l para h = elim (Bool-cases (is_blank para)) [
    | inl e ↦ rw e h
    | inr e ↦ rw e (elim (Bool-cases (is_chapter para)) [
      | inl k ↦ rw k (InLoop-start_chapter p l para h)
      | inr k ↦ rw k (InLoop-add_parts p l (split para) h)
    ])
  ]

  add_paragraph-InLoop :
      (l : Loop) (para : Text)
      → All
          (λ p. InLoop p (add_paragraph encode decode split input full_text page_boundaries l para))
          (pieces_of split para)
  unfolding add_paragraph
  add_paragraph-InLoop l para = elim (Bool-cases (is_blank para)) [
    | inl e ↦ rw e tt
    | inr e ↦ rw e (elim (Bool-cases (is_chapter para)) [
      | inl k ↦ rw k (start_chapter-InLoop l para, tt)
      | inr k ↦ rw k (add_parts-InLoop l (split para))
    ])
  ]

  InLoop-add_paragraphs :
      (p : Text) (l : Loop) (paras : List Text)
      → InLoop p l
      → InLoop p (add_paragraphs encode decode split input full_text page_boundaries l paras)
  unfolding add_paragraphs
  InLoop-add_paragraphs p l [] h = h
  InLoop-add_paragraphs p l (q ∷ qs) h =
      InLoop-add_paragraphs p
        (add_paragraph encode decode split input full_text page_boundaries l q) qs
        (InLoop-add_paragraph p l q h)

  add_paragraphs-InLoop :
      (l : Loop) (paras : List Text)
      → All
          (λ para.
            All
              (λ p.
                InLoop p
                  (add_paragraphs encode decode split input full_text page_boundaries l paras))
              (pieces_of split para))
          paras
  unfolding add_paragraphs
  add_paragraphs-InLoop l [] = tt
  add_paragraphs-InLoop l (q ∷ qs) = (
    All-weaken (pieces_of split q)
        (λ p h.
          InLoop-add_paragraphs p
            (add_paragraph encode decode split input full_text page_boundaries l q) qs h)
        (add_paragraph-InLoop l q),
    add_paragraphs-InLoop (add_paragraph encode decode split input full_text page_boundaries l q)
        qs,
  )

  Kept-save_last :
      (p : Text) (l : Loop)
      → InLoop p l
      → Kept p (save_last encode decode split input full_text page_boundaries l)
  unfolding save_last
  Kept-save_last p l h = elim (Bool-cases (is_blank l.current_chunk_text)) [
    | inl e ↦ rw e (elim h [
      | inl k ↦ k
      | inr w ↦ inl (nothing-Within (visible p) (rw (sym (visible-blank l.current_chunk_text e)) w))
    ])
    | inr e ↦ rw e (Kept-save p l h)
  ]

  pub save_last-Kept :
      (paras : List Text)
      → All
          (λ para.
            All
              (λ p. Kept p (
                save_last encode decode split input full_text page_boundaries
                  (add_paragraphs encode decode split input full_text page_boundaries begin paras)))
              (pieces_of split para))
          paras
  save_last-Kept paras =
      All-weaken paras (λ para. All-weaken (pieces_of split para) (λ p. Kept-save_last p _))
        (add_paragraphs-InLoop begin paras)
