-- ===== src/Translate/Tests.antt =====
-- Runs of the translation stage: a model that refuses every request, and one that answers while progress is lost.
use transpose.Prelude.{ℕ, ◌+◌, ◌≡◌, refl, true, false, none, some, List, [], ◌∷◌, ◌++◌}
use transpose.Text.{codes, starts_with, strip, rstrip, lstrip, is_space}
use transpose.Exec.{ok, raised, ◌>>=◌, attempt}
use transpose.Exec.Triple.{Ends}
use transpose.Gates.Translation.{translation_completeness_gate}
use transpose.Runner.Types.{BookStatus}
use transpose.Translate.Rows.{Row, has_row, get_translated_chunk_ids}
use transpose.Translate.Split.{Model, translation_error, unique_violation, other_error}
use transpose.Translate.Single.{ChunkRow, Work, Job, fallback_prefix, translate_single_chunk}
use transpose.Translate.Stage.{TranslateInput, nothing_to_do, run}
use transpose.Translate.Complete.{Complete}
use transpose.Translate.Settled.{run_settled, fallbacks_settle}
use transpose.Translate.Lost.{translate_single_chunk-unique_violation}

-- The world counts the requests.
abbrev refusing : Model ℕ
refusing = record {
  translate_chunk = λ q w. (raised (translation_error "content_filter"), w + 1);
  set_progress = λ b stage n m w. (ok tt, w);
  clean_devanagari_ocr = λ t. t;
}

abbrev unreported_model : Model ℕ
unreported_model = record {
  translate_chunk = λ q w. (
    ok (record {
      translated_text = codes "om";
      prompt_tokens = 2;
      completion_tokens = 1;
      cultural_terms = 0;
      model_version = "m";
    }),
    w + 1,
  );
  set_progress = λ b stage n m w. (raised (other_error "no connection"), w);
  clean_devanagari_ocr = λ t. t;
}

abbrev chunk_a : ChunkRow
chunk_a = record { id = "a"; source_text = codes "x. y" }

abbrev chunk_b : ChunkRow
chunk_b = record { id = "b"; source_text = codes "z" }

abbrev row_a : Row
row_a = record {
  chunk_id = "a";
  book_id = "k";
  translated_text = fallback_prefix ++ codes "x. y";
  model_version = "n/a";
  prompt_tokens = 0;
  completion_tokens = 0;
}

abbrev work_of : List Row → Work ℕ
work_of rows = record {
  rows = rows;
  status = BookStatus.chunked;
  failed_count = 0;
  completed_count = 0;
  world = 0;
}

abbrev again_input : TranslateInput
again_input = record { book_id = "k"; force_retranslate = false; concurrency = 1 }

abbrev forced_input : TranslateInput
forced_input = record { book_id = "k"; force_retranslate = true; concurrency = 4 }

abbrev job_k : Job
job_k = record { book_id = "k"; source_language = "hi"; total = 1 }

run_settled_example :
    (run refusing again_input (some "hi") (chunk_a ∷ []) (work_of (row_a ∷ []))
      ≡ (ok (nothing_to_do refusing 1), work_of (row_a ∷ [])))
    × ((translation_completeness_gate (nothing_to_do refusing 1)).passed ≡ true)
unfolding get_translated_chunk_ids starts_with
run_settled_example =
    run_settled refusing "k" 1 "hi" chunk_a [] (work_of (row_a ∷ [])) (refl, tt) (refl, tt)

fallbacks_settle_example :
    (run refusing again_input (some "hi") (chunk_a ∷ []) (work_of (row_a ∷ []))
      ≡ (ok (nothing_to_do refusing 1), work_of (row_a ∷ [])))
    × ((translation_completeness_gate (nothing_to_do refusing 1)).passed ≡ true)
unfolding get_translated_chunk_ids
fallbacks_settle_example =
    fallbacks_settle refusing "k" 1 "hi" chunk_a [] (work_of (row_a ∷ []))
      ((codes "x. y", refl), tt) (refl, tt)

translate_single_chunk-unique_violation_example :
    Ends
      (λ _ _. ⊥)
      (λ e to. (e ≡ unique_violation "a") × (has_row "a" to.rows ≡ true))
      (translate_single_chunk unreported_model job_k chunk_a none (work_of []))
unfolding has_row
translate_single_chunk-unique_violation_example =
    translate_single_chunk-unique_violation unreported_model job_k chunk_a
      (λ b stage n m w. (_, refl)) (λ q w. (_, refl)) none (work_of []) refl

-- A first run of the refusing model asks three times and keeps the source text; each chunk is counted as failed.
first_run : (run refusing again_input (some "hi") (chunk_a ∷ []) (work_of [])).1.rows ≡ row_a ∷ []
unfolding run ◌>>=◌ attempt strip rstrip lstrip starts_with is_space
first_run = refl
