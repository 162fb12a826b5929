-- ===== src/Chunk/Loop.antt =====
-- The loop over the paragraphs in `run` of src/transpose/pipeline/chunk.py. `encode` and `decode` are the tokenizer's;
-- `split` is `_split_oversized_paragraph` at the target, any function here.
use transpose.Prelude.{
  ℕ, ◌+◌, ◌-◌, Bool, true, false, not, ◌&&◌, Option, none, some, List, [], ◌∷◌, ◌++◌, length, drop,
  ltb, leb, ◌==◌, if◌then◌else◌,
}
use transpose.Text.{Text, strip, is_empty, is_blank}
use transpose.OcrClient.{Page}
use transpose.Chunk.{Chunk, create_chunk, join_cross_page_paragraphs}
use transpose.Chunk.Paragraphs.{is_chapter, break_before_markers, paragraphs_of, find_from}

pub record ChunkInput : Type 0 where
  pub target_chunk_tokens : ℕ
  pub overlap_tokens : ℕ
  pub force_rechunk : Bool

-- The local variables of the loop.
pub record Loop : Type 0 where
  pub chunks : List Chunk
  pub sequence : ℕ
  pub current_chunk_text : Text
  pub current_chunk_tokens : ℕ
  pub current_chapter : Option Text
  pub chunk_start_pos : Option ℕ
  pub overlap_reset : Bool

abbrev pub begin : Loop
begin = record {
  chunks = [];
  sequence = 0;
  current_chunk_text = [];
  current_chunk_tokens = 0;
  current_chapter = none;
  chunk_start_pos = some 0;
  overlap_reset = false;
}

abbrev pub line_ends : Text
line_ends = 10 ∷ 10 ∷ []

-- `tokens[-n:]`, which is all of the tokens if `n` is 0.
unfoldable pub last_tokens : ℕ → List ℕ → List ℕ
last_tokens n tokens = if n == 0 then tokens else drop (length tokens - n) tokens

module _ (encode : Text → List ℕ) (decode : List ℕ → Text) (split : Text → List Text)
    (input : ChunkInput) (full_text : Text) (page_boundaries : List (ℕ × ℕ)) where
  -- A position of -1 is before every boundary.
  abbrev pub chunk_at : ℕ → Text → Option ℕ → Option Text → Chunk
  chunk_at sequence text none chapter_ref = create_chunk encode sequence text [] 0 chapter_ref
  chunk_at sequence text (some pos) chapter_ref =
      create_chunk encode sequence text page_boundaries pos chapter_ref

  unfoldable pub save : Loop → Loop
  unfolding create_chunk
  save l = record l {
    chunks =
        l.chunks
        ++ chunk_at l.sequence (strip l.current_chunk_text) l.chunk_start_pos l.current_chapter
          ∷ [];
    sequence = l.sequence + 1;
  }

  -- A paragraph that starts with a chapter marker.
  unfoldable pub start_chapter : Loop → Text → Loop
  unfolding save find_from
  start_chapter l para =
      let saved = if is_empty l.current_chunk_text then l else save l in
      record saved {
        current_chapter = some (strip para);
        current_chunk_text = para ++ line_ends;
        current_chunk_tokens = length (encode para);
        chunk_start_pos = find_from 0 para full_text;
        overlap_reset = true;
      }

  -- `_get_overlap_text`
  unfoldable pub get_overlap_text : Text → Text
  unfolding last_tokens
  get_overlap_text text =
      if leb (length (encode text)) input.overlap_tokens
      then text
      else decode (last_tokens input.overlap_tokens (encode text)) ++ line_ends

  abbrev pub overlap_of : Loop → Text
  overlap_of l = if l.overlap_reset then [] else get_overlap_text l.current_chunk_text

  -- The part does not fit: the chunk is saved and the next one starts with the overlap.
  unfoldable pub next_chunk : Loop → Text → Loop
  unfolding save find_from get_overlap_text
  next_chunk l para_part =
      let text = overlap_of l ++ (para_part ++ line_ends) in
      record (save l) {
        current_chunk_text = text;
        current_chunk_tokens = length (encode text);
        chunk_start_pos = find_from 0 para_part full_text;
        overlap_reset = false;
      }

  unfoldable pub add_part : Loop → Text → Loop
  unfolding next_chunk
  add_part l para_part =
      let para_tokens = length (encode para_part) in
      if ltb input.target_chunk_tokens (l.current_chunk_tokens + para_tokens)
        && not (is_empty l.current_chunk_text)
      then next_chunk l para_part
      else record l {
        current_chunk_text = l.current_chunk_text ++ (para_part ++ line_ends);
        current_chunk_tokens = l.current_chunk_tokens + para_tokens;
      }

  unfoldable pub add_parts : Loop → List Text → Loop
  unfolding add_part
  add_parts l [] = l
  add_parts l (p ∷ ps) = add_parts (add_part l p) ps

  unfoldable pub add_paragraph : Loop → Text → Loop
  unfolding start_chapter add_parts
  add_paragraph l para =
      if is_blank para
      then l
      else if is_chapter para
      then start_chapter l para
      else add_parts l (split para)

  unfoldable pub add_paragraphs : Loop → List Text → Loop
  unfolding add_paragraph
  add_paragraphs l [] = l
  add_paragraphs l (para ∷ paras) = add_paragraphs (add_paragraph l para) paras

  unfoldable pub save_last : Loop → List Chunk
  unfolding save
  save_last l = if is_blank l.current_chunk_text then l.chunks else (save l).chunks

-- What is raised, or the chunks of the output, which are also the rows of the book afterwards. The ids of chunks are
-- left out.
pub data ChunkRun : Type 0 where
  no_pages : ChunkRun
  chunked : List Chunk → ChunkRun

module _ (is_lower : ℕ → Bool) (encode : Text → List ℕ) (decode : List ℕ → Text)
    (split : Text → List Text) (input : ChunkInput) where
  unfoldable pub make_chunks : List Page → List Chunk
  unfolding join_cross_page_paragraphs break_before_markers paragraphs_of add_paragraphs save_last
  make_chunks pages =
      let (joined, page_boundaries) = join_cross_page_paragraphs is_lower pages in
      let full_text = break_before_markers false joined in
      save_last encode decode split input full_text page_boundaries (
        add_paragraphs encode decode split input full_text page_boundaries begin
          (paragraphs_of full_text))

  abbrev from_pages : List Page → ChunkRun
  from_pages [] = no_pages
  from_pages (page ∷ pages) = chunked (make_chunks (page ∷ pages))

  -- The chunks that the book has, and its pages.
  unfoldable pub run : List Chunk → List Page → ChunkRun
  unfolding make_chunks
  run existing_chunks pages =
      if not (is_empty existing_chunks) && not input.force_rechunk
      then chunked existing_chunks
      else from_pages pages
