-- ===== src/Chunk/Tests.antt =====
-- Pages that src/transpose/pipeline/chunk.py joins, and the theorems there.
use transpose.Prelude.{ℕ, ◌≡◌, refl, String, Bool, List, [], ◌∷◌, ◌&&◌, leb, map, flatten}
use transpose.Text.{codes, strip, is_blank, rstrip, lstrip, is_space}
use transpose.OcrClient.{Page}
use transpose.Chunk.{Text, Chunk, false, join_cross_page_paragraphs}
use transpose.Chunk.Loop.{ChunkInput, Loop, begin}
use transpose.Chunk.Split.{split_oversized_paragraph, is_sentence_end}
use transpose.Exec.{ok}
use transpose.Chunk.Joined.{visible, number_of, join_cross_page_paragraphs_lem}

abbrev is_lower : ℕ → Bool
is_lower c = leb 97 c && leb c 122

abbrev page : ℕ → String → Page
page n s = record { page_number = n; raw_text = codes s; line_count = 1; word_count = 1 }

-- The sentence goes on after the first page, and ends with the second.
abbrev pages : List Page
pages = page 1 "He is" ∷ page 2 "gone." ∷ page 3 "Weep" ∷ []

join_cross_page_paragraphs_lem_example :
    (visible (join_cross_page_paragraphs is_lower pages).0
      ≡ flatten (map (λ p. visible p.raw_text) pages))
    × (map number_of (join_cross_page_paragraphs is_lower pages).1 ≡ map (λ p. p.page_number) pages)
join_cross_page_paragraphs_lem_example = join_cross_page_paragraphs_lem is_lower pages

abbrev bounds : List (ℕ × ℕ)
bounds = (0, 1) ∷ (6, 2) ∷ (13, 3) ∷ []

-- A tokenizer by characters, and paragraphs that are left whole.
abbrev small : ChunkInput
small = record { target_chunk_tokens = 24; overlap_tokens = 0; force_rechunk = false }

abbrev whole : Text → List Text
whole t = t ∷ []

abbrev two_words : Loop
two_words = record begin { current_chunk_text = codes "He is gone.\n\n"; current_chunk_tokens = 11 }

-- Tokens are characters. Two sentences are put together although the space between them is one too many, and a sentence
-- that is too long is cut.
parts_made :
    split_oversized_paragraph (λ t. t) (λ t. t) 12 (codes "Abcde.  Fghij! Long long word?")
    ≡ ok (codes "Abcde. Fghij!" ∷ codes "Long long wo" ∷ codes "rd?" ∷ [])
unfolding split_oversized_paragraph is_space strip rstrip lstrip is_blank is_sentence_end
parts_made = refl

-- A tokenizer whose first token stands for half a letter, which is lost at a cut: what needs no cut is kept.
abbrev halves : Text → List ℕ
halves t = flatten (map (λ c. c ∷ 0 ∷ []) t)

abbrev lossy : List ℕ → Text
lossy [] = []
lossy (c ∷ []) = 0xFFFD ∷ []
lossy (c ∷ (d ∷ tokens)) = c ∷ lossy tokens

abbrev three_sentences : Text
three_sentences = codes "Abcde.  Fghij! Long long word?"
