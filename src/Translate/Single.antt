-- ===== src/Translate/Single.antt =====
-- `translate_single_chunk` of src/transpose/pipeline/translate.py.
use transpose.Prelude.{
  ℕ, ◌+◌, String, false, Option, none, some, List, [], ◌∷◌, ◌++◌, if◌then◌else◌,
}
use transpose.Text.{Text, codes}
use transpose.Exec.{ok, raised, Exec, pure, gets, modify, attempt, ◌>>=◌, ◌>>◌}
use transpose.Gates.Types.{TranslationResult}
use transpose.Runner.Types.{BookStatus}
use transpose.Translate.Rows.{Row, has_row}
use transpose.Translate.Split.{Exc, unique_violation, Response, Model, Combined, retry_with_split}

-- Of a chunk what the stage reads.
pub record ChunkRow : Type 0 where
  pub id : String
  pub source_text : Text

-- The table, the book's status, the two counters of `run`, and the outer world.
pub record Work (W : Type 0) : Type 0 where
  pub rows : List Row
  pub status : BookStatus
  pub failed_count : ℕ
  pub completed_count : ℕ
  pub world : W

-- What the closures read of `run`: the book, its language and `len(chunks_to_translate)`.
pub record Job : Type 0 where
  pub book_id : String
  pub source_language : String
  pub total : ℕ

-- A call that only changes the outer world.
unfoldable pub lift : {W A : Type 0} → Exec Exc W A → Exec Exc (Work W) A
lift op s = let (o, w) = op s.world in (o, record s { world = w })

-- `create_translation`: the constraint refuses a second row of a chunk.
unfoldable pub create_translation : {W : Type 0} → Row → Exec Exc (Work W) (Unit {0})
unfolding has_row
create_translation row s =
    if has_row row.chunk_id s.rows
    then (raised (unique_violation row.chunk_id), s)
    else (ok tt, record s { rows = s.rows ++ row ∷ [] })

abbrev pub row_of : String → TranslationResult → Row
row_of book_id r = record {
  chunk_id = r.chunk_id;
  book_id = book_id;
  translated_text = r.translated_text;
  model_version = r.model_version;
  prompt_tokens = r.prompt_tokens;
  completion_tokens = r.completion_tokens;
}

-- The three results: of the whole chunk, of its halves, and the source text behind the prefix.
abbrev pub translated : ChunkRow → Response → TranslationResult
translated chunk r = record {
  chunk_id = chunk.id;
  translated_text = r.translated_text;
  prompt_tokens = r.prompt_tokens;
  completion_tokens = r.completion_tokens;
  model_version = r.model_version;
}

abbrev pub from_halves : ChunkRow → Combined → TranslationResult
from_halves chunk c = record {
  chunk_id = chunk.id;
  translated_text = c.text;
  prompt_tokens = c.prompt_tokens;
  completion_tokens = c.completion_tokens;
  model_version = "split-retry";
}

-- `ORIGINAL_TEXT_FALLBACK_PREFIX` and two line ends
abbrev pub fallback_prefix : Text
fallback_prefix = codes "[Original text — translation unavailable]\n\n"

abbrev pub fallback : ChunkRow → Text → TranslationResult
fallback chunk cleaned_source = record {
  chunk_id = chunk.id;
  translated_text = fallback_prefix ++ cleaned_source;
  prompt_tokens = 0;
  completion_tokens = 0;
  model_version = "n/a";
}

-- A result, the number of its terms, and the model's response to the whole chunk.
pub record Done : Type 0 where
  pub result : TranslationResult
  pub terms : ℕ
  pub response : Option Response

module _ {W : Type 0} (llm : Model W) (job : Job) where
  -- The row is written, the chunk is counted, and the progress reported.
  unfoldable pub record_result : Done → Exec Exc (Work W) Done
  unfolding create_translation lift
  record_result done = do
    create_translation (row_of job.book_id done.result)
    modify (λ s. record s { completed_count = s.completed_count + 1 })
    n ← gets (λ s. s.completed_count)
    lift (llm.set_progress job.book_id "translate" n job.total)
    pure done

  unfoldable pub first_try : ChunkRow → Option Text → Exec Exc (Work W) Done
  unfolding record_result
  first_try chunk prev_context = do
    response ← lift (
        llm.translate_chunk (record {
          source_text = chunk.source_text;
          source_language = job.source_language;
          previous_context = prev_context;
          content_filter_context = false;
        }))
    record_result (record {
      result = translated chunk response;
      terms = response.cultural_terms;
      response = some response;
    })

  unfoldable pub split_try : ChunkRow → Option Text → Exec Exc (Work W) Done
  unfolding record_result retry_with_split
  split_try chunk prev_context = do
    c ← lift (retry_with_split llm chunk.source_text job.source_language prev_context)
    record_result
        (record { result = from_halves chunk c; terms = c.cultural_terms; response = none })

  unfoldable pub fall_back : ChunkRow → Exec Exc (Work W) Done
  unfolding record_result
  fall_back chunk = do
    modify (λ s. record s { failed_count = s.failed_count + 1 })
    record_result (record {
      result = fallback chunk (llm.clean_devanagari_ocr chunk.source_text);
      terms = 0;
      response = none;
    })

  unfoldable pub translate_single_chunk : ChunkRow → Option Text → Exec Exc (Work W) Done
  unfolding first_try split_try fall_back
  translate_single_chunk chunk prev_context =
      attempt (first_try chunk prev_context)
        (λ exc. attempt (split_try chunk prev_context) (λ split_exc. fall_back chunk))
