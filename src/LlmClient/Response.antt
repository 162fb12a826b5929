-- ===== src/LlmClient/Response.antt =====
-- `translate_chunk` of src/transpose/services/llm_client.py. `loads` is `json.loads` with the keys that are read of the
-- object; `none` is a text that is no JSON.
use transpose.Prelude.{ℕ, Bool, true, Option, none, some, List, [], ◌∷◌, list_eq, if◌then◌else◌}
use transpose.Text.{Text, codes}
use transpose.Exec.{Exec, pure, raise, ◌>>=◌}
use transpose.Glossary.Terms.{TermSource, seed, llm_detected, ExtractedTerm}
use transpose.LlmClient.{
  String, Completion, Reply, LlmError, malformed, Prompt, Trace, call_with_retry, non_empty_content,
  content_or_error,
}
use transpose.LlmClient.Prompts.{
  SourceLanguage, build_user_prompt, reframe_for_content_filter, reframe_clinical,
  reframe_chunked_summary,
}
use transpose.LlmClient.System.{build_system_prompt}

-- An entry of `cultural_terms`; `none` is a key that is missing.
pub record TermData : Type 0 where
  pub term : Option Text
  pub original_script : Option Text
  pub definition : Option Text
  pub source : Option Text

pub record Parsed : Type 0 where
  pub translated_text : Option Text
  pub cultural_terms : Option (List TermData)

pub record TranslationResponse : Type 0 where
  pub translated_text : Text
  pub cultural_terms : List ExtractedTerm
  pub prompt_tokens : ℕ
  pub completion_tokens : ℕ
  pub model_version : String

abbrev pub or_default : Option Text → Text → Text
or_default none default = default
or_default (some t) default = t

-- `TermSource(value)`; `none` is its `ValueError`.
unfoldable pub term_source : Text → Option TermSource
unfolding list_eq
term_source t =
    if list_eq t (codes "seed")
    then some seed
    else if list_eq t (codes "llm_detected")
    then some llm_detected
    else none

abbrev with_source : TermData → Option TermSource → Option ExtractedTerm
with_source d none = none
with_source d (some source) = some (record {
  term = or_default d.term [];
  original_script = or_default d.original_script [];
  definition = or_default d.definition [];
  source = source;
})

unfoldable pub extracted_term : TermData → Option ExtractedTerm
unfolding term_source
extracted_term d = with_source d (term_source (or_default d.source (codes "llm_detected")))

abbrev pub term_and_rest :
    Option ExtractedTerm → Option (List ExtractedTerm) → Option (List ExtractedTerm)
term_and_rest none rest = none
term_and_rest (some t) none = none
term_and_rest (some t) (some ts) = some (t ∷ ts)

unfoldable pub extracted_terms : List TermData → Option (List ExtractedTerm)
unfolding extracted_term
extracted_terms [] = some []
extracted_terms (d ∷ ds) = term_and_rest (extracted_term d) (extracted_terms ds)

abbrev pub term_entries : Option (List TermData) → List TermData
term_entries none = []
term_entries (some ds) = ds

abbrev pub tokens_of : Option (ℕ × ℕ) → ℕ × ℕ
tokens_of none = (0, 0)
tokens_of (some usage) = usage

abbrev pub response_of :
    Completion → Parsed → Option (List ExtractedTerm) → Exec LlmError Trace TranslationResponse
response_of response parsed none = raise malformed
response_of response parsed (some terms) = pure (record {
  translated_text = or_default parsed.translated_text [];
  cultural_terms = terms;
  prompt_tokens = (tokens_of response.usage).0;
  completion_tokens = (tokens_of response.usage).1;
  model_version = response.model;
})

abbrev pub parsed_or_error : Option Parsed → Exec LlmError Trace Parsed
parsed_or_error none = raise malformed
parsed_or_error (some parsed) = pure parsed

-- The response, out of what the service has completed.
unfoldable pub read_response :
    (ℕ → Reply) → (Text → Option Parsed) → Completion → Exec LlmError Trace TranslationResponse
unfolding extracted_terms
read_response reply loads response = do
  content ← content_or_error reply (non_empty_content reply response.content)
  parsed ← parsed_or_error (loads content)
  response_of response parsed (extracted_terms (term_entries parsed.cultural_terms))

-- The system prompt of a chunk, or of the stages behind a content filter, with a text of the user.
abbrev pub prompt_of : SourceLanguage → List (Text × Text × Text) → Bool → Text → Prompt
prompt_of source_language seed_terms content_filter_context user = record {
  system = some (build_system_prompt source_language seed_terms content_filter_context);
  user = user;
}

unfoldable pub fallback_prompts :
    Text → SourceLanguage → Option Text → List (Text × Text × Text) → List Prompt
unfolding build_system_prompt reframe_for_content_filter reframe_clinical reframe_chunked_summary
fallback_prompts source_text source_language previous_context seed_terms =
    prompt_of source_language seed_terms true
      (reframe_for_content_filter source_text previous_context)
    ∷ prompt_of source_language seed_terms true (reframe_clinical source_text source_language)
    ∷ prompt_of source_language seed_terms true
        (reframe_chunked_summary source_text source_language)
    ∷ []

unfoldable pub translate_chunk :
    (ℕ → Reply)
    → (Text → Option Parsed)
    → ℕ
    → Text
    → SourceLanguage
    → Option Text
    → List (Text × Text × Text)
    → Bool
    → Exec LlmError Trace TranslationResponse
unfolding call_with_retry build_user_prompt build_system_prompt fallback_prompts read_response
translate_chunk reply loads max_retries source_text source_language previous_context seed_terms
      content_filter_context =
    call_with_retry reply max_retries
      (prompt_of source_language seed_terms content_filter_context
        (build_user_prompt source_text previous_context))
      (fallback_prompts source_text source_language previous_context seed_terms)
    >>= read_response reply loads
