-- ===== src/Translate/Client.antt =====
-- The stage of src/transpose/pipeline/translate.py with the client of src/transpose/services/llm_client.py as its model. The
-- reports of progress change a world of their own.
use transpose.Prelude.{ℕ, ◌+◌, ◌*◌, ◌≤◌, String, Option, List, length, str_eq, arith, if◌then◌else◌}
use transpose.Text.{Text}
use transpose.Exec.{Outcome, ok, raised, Exec}
use transpose.LlmClient.{
  Reply, LlmError, content_filter, rate_limit, timeout, transient, permanent, empty_response,
  malformed, Trace,
}
use transpose.LlmClient.Prompts.{SourceLanguage, hindi, punjabi}
use transpose.LlmClient.Response.{Parsed, TranslationResponse, translate_chunk}
use transpose.LlmClient.Asks.{asked_count, Within-translate_chunk}
use transpose.Translate.Split.{Exc, translation_error, value_error, Request, Response, Model}
use transpose.Translate.Single.{ChunkRow, Work}
use transpose.Translate.Stage.{TranslateInput, run}
use transpose.Translate.Counted.{todo_of, run-outer}

abbrev pub exc_of : LlmError → Exc
exc_of content_filter = translation_error "content_filter"
exc_of rate_limit = translation_error "rate_limit"
exc_of timeout = translation_error "timeout"
exc_of transient = translation_error "transient"
exc_of permanent = translation_error "permanent"
exc_of empty_response = value_error "Empty response from LLM"
exc_of malformed = value_error "json"

-- A `SourceLanguage` is one of two texts.
abbrev pub language_of : String → SourceLanguage
language_of s = if str_eq s "punjabi" then punjabi else hindi

abbrev pub as_response : Outcome LlmError TranslationResponse → Outcome Exc Response
as_response (raised e) = raised (exc_of e)
as_response (ok r) = ok (record {
  translated_text = r.translated_text;
  prompt_tokens = r.prompt_tokens;
  completion_tokens = r.completion_tokens;
  cultural_terms = length r.cultural_terms;
  model_version = r.model_version;
})

module _ {V : Type 0} (progress : String → String → ℕ → ℕ → Exec Exc V (Unit {0}))
    (clean : Text → Text) (reply : ℕ → Reply) (loads : Text → Option Parsed) (max_retries : ℕ)
    (seed_terms : List (Text × Text × Text)) where
  abbrev pub chunk_call : Request → Exec LlmError Trace TranslationResponse
  chunk_call request =
      translate_chunk reply loads max_retries request.source_text
        (language_of request.source_language) request.previous_context seed_terms
        request.content_filter_context

  unfoldable pub client_model : Model (Trace × V)
  unfolding translate_chunk
  client_model = record {
    translate_chunk =
        λ request s. (as_response (chunk_call request s.0).0, ((chunk_call request s.0).1, s.1));
    set_progress = λ book stage n total s.
        ((progress book stage n total s.1).0, (s.0, (progress book stage n total s.1).1));
    clean_devanagari_ocr = clean;
  }

-- Whatever the service replies, and whatever the progress table does, a run over the chunks of a book asks the service at
-- most three times as often, for each chunk that has no row to keep, as one call has attempts and fallback stages: the
-- attempts that are allowed, and three stages.
pub run-asks :
    {V : Type 0} (progress : String → String → ℕ → ℕ → Exec Exc V (Unit {0})) (clean : Text → Text)
    (reply : ℕ → Reply) (loads : Text → Option Parsed) (max_retries : ℕ)
    (seed_terms : List (Text × Text × Text)) (input : TranslateInput) (language : Option String)
    (chunks : List ChunkRow) (s : Work (Trace × V))
    → let model = client_model progress clean reply loads max_retries seed_terms in
      asked_count (run model input language chunks s).1.world.0
      ≤ asked_count s.world.0 + length (todo_of input chunks s) * (3 * (max_retries + 3))
unfolding client_model
run-asks progress clean reply loads max_retries seed_terms input language chunks s =
    run-outer (λ w. asked_count w.0)
      (client_model progress clean reply loads max_retries seed_terms) (max_retries + 3)
      (λ request. record {
        at = λ w.
            (Within-translate_chunk reply loads max_retries request.source_text
                (language_of request.source_language) request.previous_context seed_terms
                request.content_filter_context).at
              w.0;
      })
      (λ book stage n total. record { at = λ w. omega arith }) input language chunks s
