-- ===== src/LlmClient/Asks.antt =====
-- How often `translate_chunk` of src/transpose/services/llm_client.py asks the service.
use transpose.Prelude.{
  ℕ, zero, suc, ◌+◌, ◌≤◌, ◌≡◌, refl, ap, Bool, Option, none, some, List, [], ◌∷◌, ◌++◌, length,
  length-append, take, arith,
}
use transpose.Text.{Text}
use transpose.Exec.Within.{Within, Within-pure, Within-raise, Within-more, Within-bind}
use transpose.Glossary.Terms.{ExtractedTerm}
use transpose.LlmClient.{
  Completion, Reply, Prompt, Trace, attempts, call_with_retry, content_or_error, non_empty_content,
}
use transpose.LlmClient.Asked.{replicate}
use transpose.LlmClient.Calls.{call_with_retry-Called}
use transpose.LlmClient.Prompts.{SourceLanguage}
use transpose.LlmClient.Response.{
  Parsed, extracted_terms, term_entries, parsed_or_error, response_of, read_response,
  fallback_prompts, translate_chunk,
}

-- How many prompts have been asked.
abbrev pub asked_count : Trace → ℕ
asked_count t = length t.prompts

length-replicate : {A : Type 0} (n : ℕ) (x : A) → length (replicate n x) ≡ n
length-replicate zero x = refl
length-replicate (suc n) x = ap (λ k. suc k) (length-replicate n x)

length-take_le : {A : Type 0} (n : ℕ) (xs : List A) → length (take n xs) ≤ length xs
length-take_le zero xs = omega arith
length-take_le (suc n) [] = omega arith
length-take_le (suc n) (x ∷ xs) = omega (arith, length-take_le n xs)

module _ (reply : ℕ → Reply) where
  Within-call_with_retry :
      (max_retries : ℕ) (messages : Prompt) (fallbacks : List Prompt)
      → Within asked_count
          (max_retries + length fallbacks)
          (call_with_retry reply max_retries messages fallbacks)
  Within-call_with_retry zero messages fallbacks = unfold call_with_retry attempts in Within-raise _
  Within-call_with_retry (suc left) messages fallbacks = record {
    at = λ t.
        let c = call_with_retry-Called reply left messages fallbacks t in
        omega (
          arith,
          ap length c.went.prompts,
          length-append t.prompts
              (messages ∷ (replicate c.tries messages ++ take c.stages fallbacks)),
          length-append (replicate c.tries messages) (take c.stages fallbacks),
          length-replicate c.tries messages,
          length-take_le c.stages fallbacks,
          c.tries_le,
        );
  }

  Within-content : (content : Option Text) → Within asked_count 0 (content_or_error reply content)
  Within-content none = Within-raise _
  Within-content (some s) = Within-pure s

  Within-parsed : (parsed : Option Parsed) → Within asked_count 0 (parsed_or_error parsed)
  Within-parsed none = Within-raise _
  Within-parsed (some p) = Within-pure p

  Within-response :
      (c : Completion) (p : Parsed) (terms : Option (List ExtractedTerm))
      → Within asked_count 0 (response_of c p terms)
  Within-response c p none = Within-raise _
  Within-response c p (some terms) = Within-pure _

  module _ (loads : Text → Option Parsed) where
    Within-read_response : (c : Completion) → Within asked_count 0 (read_response reply loads c)
    unfolding read_response
    Within-read_response c =
        Within-bind {j = 0} {k = 0} (Within-content (non_empty_content reply c.content)) λ content.
          Within-bind {j = 0} {k = 0} (Within-parsed (loads content)) λ parsed.
            Within-response c parsed (extracted_terms (term_entries parsed.cultural_terms))

    pub Within-translate_chunk :
        (max_retries : ℕ) (source_text : Text) (source_language : SourceLanguage)
        (previous_context : Option Text) (seed_terms : List (Text × Text × Text))
        (in_context : Bool)
        → Within asked_count (max_retries + 3) (
            translate_chunk reply loads max_retries source_text source_language previous_context
              seed_terms in_context)
    unfolding translate_chunk fallback_prompts
    Within-translate_chunk max_retries source_text source_language previous_context seed_terms
          in_context =
        Within-more (omega arith) (
          Within-bind
            (Within-call_with_retry max_retries _
              (fallback_prompts source_text source_language previous_context seed_terms))
            Within-read_response)
