-- ===== src/Translate/Stage.antt =====
-- `run` of src/transpose/pipeline/translate.py. In its parallel mode the tasks are taken one after another here, which
-- is one of the orders that the event loop may take; `asyncio.gather` keeps the order of the results. The database answers
-- every statement here, but for a second row of a chunk; the write of the progress row may fail.
use transpose.Prelude.{
  member, ℕ, ◌+◌, ◌-◌, String, Bool, true, false, not, ◌||◌, Option, none, some, List, [], ◌∷◌,
  length, drop, map, select, ltb, leb, ◌==◌, if◌then◌else◌,
}
use transpose.Text.{Text, is_empty}
use transpose.Exec.{Exec, pure, raise, gets, modify, ◌>>=◌, ◌>>◌}
use transpose.Gates.Types.{TranslateOutput}
use transpose.Runner.Types.{BookStatus}
use transpose.Translate.Rows.{
  Row, get_translated_chunk_ids, get_failed_translation_chunk_ids, delete_each, minus,
}
use transpose.Translate.Split.{Exc, value_error, Response, Model}
use transpose.Translate.Single.{ChunkRow, Work, Job, Done, translate_single_chunk}

pub record TranslateInput : Type 0 where
  pub book_id : String
  pub force_retranslate : Bool
  pub concurrency : ℕ

-- The rows that are left to stand, and the ids that count as translated.
unfoldable pub prepare : Bool → String → List Row → List Row × List String
unfolding get_translated_chunk_ids get_failed_translation_chunk_ids delete_each minus
prepare true book_id rows = (delete_each (get_translated_chunk_ids book_id rows) rows, [])
prepare false book_id rows =
    let ids = get_translated_chunk_ids book_id rows in
    let failed = get_failed_translation_chunk_ids book_id rows in
    if is_empty ids then (rows, ids) else (delete_each failed rows, minus ids failed)

-- `chunks_to_translate`
unfoldable pub to_translate : Bool → List String → List ChunkRow → List ChunkRow
unfolding select
to_translate force ids chunks = select (λ c. force || not (member c.id ids)) chunks

-- `previous_translation.translated_text[-200:]` of a text longer than that
abbrev pub context_of : Option Response → Option Text
context_of none = none
context_of (some r) =
    if ltb 200 (length r.translated_text)
    then some (drop (length r.translated_text - 200) r.translated_text)
    else none

-- `if response is not None: previous_translation = response`
abbrev pub newer : Option Response → Option Response → Option Response
newer (some r) previous = some r
newer none previous = previous

abbrev pub sum_of : (Done → ℕ) → List Done → ℕ
sum_of f [] = 0
sum_of f (d ∷ ds) = f d + sum_of f ds

module _ {W : Type 0} (llm : Model W) where
  -- The sequential mode; the results in order.
  unfoldable pub one_by_one : Job → Option Response → List ChunkRow → Exec Exc (Work W) (List Done)
  unfolding translate_single_chunk
  one_by_one job previous [] = pure []
  one_by_one job previous (chunk ∷ chunks) = do
    done ← translate_single_chunk llm job chunk (context_of previous)
    rest ← one_by_one job (newer done.response previous) chunks
    pure (done ∷ rest)

  -- The parallel mode.
  unfoldable pub gather : Job → List ChunkRow → Exec Exc (Work W) (List Done)
  unfolding translate_single_chunk
  gather job [] = pure []
  gather job (chunk ∷ chunks) = do
    done ← translate_single_chunk llm job chunk none
    rest ← gather job chunks
    pure (done ∷ rest)

  -- From the first task to the output. `translated_chunk_ids` is empty if the rows were deleted.
  unfoldable pub translate_chunks :
      TranslateInput → String → List String → List ChunkRow → Exec Exc (Work W) TranslateOutput
  unfolding one_by_one gather
  translate_chunks input source_language translated_chunk_ids chunks = do
    modify (λ s. record s { failed_count = 0; completed_count = 0 })
    let job : Job = record {
      book_id = input.book_id;
      source_language = source_language;
      total = length chunks;
    }
    done ← if leb input.concurrency 1 then one_by_one job none chunks else gather job chunks
    if length done == length chunks
        then modify (λ s. record s { status = BookStatus.translated })
        else raise (value_error "Translation completeness check failed")
    failed ← gets (λ s. s.failed_count)
    pure (record {
      chunks_translated = length done;
      chunks_skipped = length translated_chunk_ids;
      total_prompt_tokens = sum_of (λ d. d.result.prompt_tokens) done;
      total_completion_tokens = sum_of (λ d. d.result.completion_tokens) done;
      translations = map (λ d. d.result) done;
      failed_count = failed;
    })

  -- "All chunks already translated"
  unfoldable pub nothing_to_do : ℕ → TranslateOutput
  nothing_to_do n = record {
    chunks_translated = 0;
    chunks_skipped = n;
    total_prompt_tokens = 0;
    total_completion_tokens = 0;
    translations = [];
    failed_count = 0;
  }

  -- Behind the two lookups: the book's language and its chunks.
  unfoldable pub translate_book :
      TranslateInput → String → List ChunkRow → Exec Exc (Work W) TranslateOutput
  unfolding prepare to_translate translate_chunks nothing_to_do
  translate_book input source_language chunks = do
    prepared ← gets (λ s. prepare input.force_retranslate input.book_id s.rows)
    modify (λ s. record s { rows = prepared.0 })
    let todo = to_translate input.force_retranslate prepared.1 chunks
    if is_empty todo
        then pure (nothing_to_do (length chunks))
        else translate_chunks input source_language prepared.1 todo

  unfoldable pub run :
      TranslateInput → Option String → List ChunkRow → Exec Exc (Work W) TranslateOutput
  unfolding translate_book
  run input none chunks = raise (value_error "Book not found")
  run input (some source_language) [] = raise (value_error "No chunks found for book")
  run input (some source_language) (c ∷ cs) = translate_book input source_language (c ∷ cs)
