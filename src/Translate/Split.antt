-- ===== src/Translate/Split.antt =====
-- `_retry_with_split` of src/transpose/pipeline/translate.py.
use transpose.Prelude.{
  ℕ, ◌+◌, ◌/◌, String, Bool, true, ◌||◌, Option, none, some, ◌++◌, length, take, drop, ltb,
  if◌then◌else◌,
}
use transpose.Text.{Text, codes, strip, is_empty, rfind}
use transpose.Exec.{Exec, pure, raise, ◌>>=◌}

pub data Exc : Type 0 where
  translation_error : String → Exc
  value_error : String → Exc
  unique_violation : String → Exc
  other_error : String → Exc

pub record Request : Type 0 where
  pub source_text : Text
  pub source_language : String
  pub previous_context : Option Text
  pub content_filter_context : Bool

-- `TranslationResponse` of src/transpose/services/llm_client.py; the cultural terms by their number.
pub record Response : Type 0 where
  pub translated_text : Text
  pub prompt_tokens : ℕ
  pub completion_tokens : ℕ
  pub cultural_terms : ℕ
  pub model_version : String

-- What the stage calls: `ctx.llm.translate_chunk`, `ctx.state.set_progress` and `clean_devanagari_ocr`.
pub record Model (W : Type 0) : Type 0 where
  pub translate_chunk : Request → Exec Exc W Response
  pub set_progress : String → String → ℕ → ℕ → Exec Exc W (Unit {0})
  pub clean_devanagari_ocr : Text → Text

-- `split_at < len(source_text) // 4`, where -1 is a `none`
abbrev pub too_early : Option ℕ → Text → Bool
too_early none t = true
too_early (some k) t = ltb k (length t / 4)

abbrev pub or_else : Option ℕ → ℕ → ℕ
or_else none d = d
or_else (some k) d = k

unfoldable pub split_point : Text → ℕ
unfolding rfind
split_point t =
    let mid = length t / 2 in
    let at_paragraph = rfind t (codes "\n\n") (mid + 200) in
    let at_danda = rfind t (codes "।") (mid + 200) in
    let at_stop = rfind t (codes ". ") (mid + 200) in
    if too_early at_paragraph t
    then (if too_early at_danda t
        then (if too_early at_stop t then mid else or_else at_stop mid)
        else or_else at_danda mid)
    else or_else at_paragraph mid

abbrev pub halves : Text → Text × Text
halves t = (strip (take (split_point t + 1) t), strip (drop (split_point t + 1) t))

-- What the two calls give together.
pub record Combined : Type 0 where
  pub text : Text
  pub prompt_tokens : ℕ
  pub completion_tokens : ℕ
  pub cultural_terms : ℕ

abbrev pub combine : Response → Response → Combined
combine first second = record {
  text =
      strip ((first.translated_text ++ codes "\n\n") ++ (second.translated_text ++ codes "\n\n"));
  prompt_tokens = first.prompt_tokens + second.prompt_tokens;
  completion_tokens = first.completion_tokens + second.completion_tokens;
  cultural_terms = first.cultural_terms + second.cultural_terms;
}

abbrev pub part_request : Text → String → Option Text → Request
part_request t source_language previous_context = record {
  source_text = t;
  source_language = source_language;
  previous_context = previous_context;
  content_filter_context = true;
}

module _ {W : Type 0} (llm : Model W) where
  unfoldable pub retry_with_split : Text → String → Option Text → Exec Exc W Combined
  unfolding split_point
  retry_with_split source_text source_language previous_context =
      let (first_half, second_half) = halves source_text in
      if is_empty first_half || is_empty second_half
      then raise (translation_error "permanent")
      else (do
        first ← llm.translate_chunk (part_request first_half source_language previous_context)
        second ← llm.translate_chunk (part_request second_half source_language none)
        pure (combine first second))
