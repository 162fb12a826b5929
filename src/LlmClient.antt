-- ===== src/LlmClient.antt =====
-- The calls of the model in src/transpose/services/llm_client.py: `_call_with_retry` of `translate_chunk` with the stages
-- behind a content filter, the loop of `chat`, and what is read out of a response. The service is an argument: what it
-- replies to its first call, to its second, and so on. A sleep is given in units of `retry_base_delay`.
pub mod Asked
pub mod Calls
pub mod Prompts
pub mod System
pub mod Response
pub mod Asks
mod Sanitized
mod Tests
use transpose.Prelude.{
  String, ℕ, zero, suc, ◌+◌, ◌*◌, ◌^◌, Bool, true, false, Option, none, some, List, [], ◌∷◌, ◌++◌,
  length, map, ◌==◌, if◌then◌else◌,
}
use transpose.Text.{Text, codes, strip, is_empty}
use transpose.Exec.{Outcome, ok, raised, Exec, pure, raise, ◌>>=◌}

-- A chat completion: its content, the tokens of the prompt and of the completion, and the model.
pub record Completion : Type 0 where
  pub content : Option Text
  pub usage : Option (ℕ × ℕ)
  pub model : String

-- What the SDK returns or raises. A `BadRequestError` says whether it names the content filter.
pub data Reply : Type 0 where
  completion : Completion → Reply
  bad_request : Bool → Reply
  rate_limit_error : Reply
  api_timeout_error : Reply
  api_error : Reply
  other_exception : Reply

-- `error_type` of a `TranslationError`, and the exceptions of the reading.
pub data LlmError : Type 0 where
  content_filter rate_limit timeout transient permanent : LlmError
  empty_response : LlmError
  malformed : LlmError

-- The messages: that of the system, if there is one, and that of the user.
pub record Prompt : Type 0 where
  pub system : Option Text
  pub user : Text

-- What has been asked and slept, in order.
pub record Trace : Type 0 where
  pub prompts : List Prompt
  pub sleeps : List ℕ

abbrev pub is_zero : ℕ → Bool
is_zero zero = true
is_zero (suc n) = false

module _ (reply : ℕ → Reply) where
  -- `await client.chat.completions.create(…)`
  abbrev pub ask : Prompt → Trace → Reply × Trace
  ask p t = (reply (length t.prompts), record t { prompts = t.prompts ++ p ∷ [] })

  -- `await asyncio.sleep(…)`
  abbrev pub slept : ℕ → Trace → Trace
  slept wait t = record t { sleeps = t.sleeps ++ wait ∷ [] }

  -- The stages behind a content filter: a `BadRequestError` goes on, any other exception ends them.
  abbrev pub stage_reply :
      Reply
      → (Trace → Outcome LlmError Completion × Trace)
      → Trace
      → Outcome LlmError Completion × Trace
  stage_reply (completion c) next t = (ok c, t)
  stage_reply (bad_request b) next t = next t
  stage_reply rate_limit_error next t = (raised content_filter, t)
  stage_reply api_timeout_error next t = (raised content_filter, t)
  stage_reply api_error next t = (raised content_filter, t)
  stage_reply other_exception next t = (raised content_filter, t)

  unfoldable pub fallback_stages : List Prompt → Exec LlmError Trace Completion
  fallback_stages [] t = (raised content_filter, t)
  fallback_stages (p ∷ ps) t = let (r, t') = ask p t in stage_reply r (fallback_stages ps) t'

  -- The wait before the next attempt, or the error of the last one.
  abbrev pub again :
      Bool
      → ℕ
      → LlmError
      → (Trace → Outcome LlmError Completion × Trace)
      → Trace
      → Outcome LlmError Completion × Trace
  again true wait error next t = (raised error, t)
  again false wait error next t = next (slept wait t)

  abbrev pub attempt_reply :
      Reply
      → Bool
      → ℕ
      → Exec LlmError Trace Completion
      → (Trace → Outcome LlmError Completion × Trace)
      → Trace
      → Outcome LlmError Completion × Trace
  attempt_reply (completion c) is_last attempt filtered next t = (ok c, t)
  attempt_reply (bad_request true) is_last attempt filtered next t = filtered t
  attempt_reply (bad_request false) is_last attempt filtered next t = (raised permanent, t)
  attempt_reply rate_limit_error is_last attempt filtered next t =
      again is_last (2 ^ attempt * 2) rate_limit next t
  attempt_reply api_timeout_error is_last attempt filtered next t =
      again is_last (2 ^ attempt) timeout next t
  attempt_reply api_error is_last attempt filtered next t =
      again is_last (2 ^ attempt) transient next t
  attempt_reply other_exception is_last attempt filtered next t = (raised permanent, t)

  -- The loop, with the attempts that are left and the number of the next one.
  unfoldable pub attempts :
      ℕ → ℕ → Prompt → Exec LlmError Trace Completion → Exec LlmError Trace Completion
  attempts zero attempt messages filtered t = (raised transient, t)
  attempts (suc left) attempt messages filtered t =
      let (r, t') = ask messages t in
      attempt_reply r (is_zero left) attempt filtered
        (attempts left (suc attempt) messages filtered) t'

  -- `_call_with_retry`, with the prompts of the three stages.
  unfoldable pub call_with_retry : ℕ → Prompt → List Prompt → Exec LlmError Trace Completion
  unfolding attempts fallback_stages
  call_with_retry max_retries messages fallbacks =
      attempts max_retries 0 messages (fallback_stages fallbacks)

  abbrev pub non_empty_content : Option Text → Option Text
  non_empty_content none = none
  non_empty_content (some []) = none
  non_empty_content (some (c ∷ s)) = some (c ∷ s)

  abbrev pub content_or_error : Option Text → Exec LlmError Trace Text
  content_or_error none = raise empty_response
  content_or_error (some s) = pure s

  -- `chat`: the content filter ends it.
  unfoldable pub chat : ℕ → Text → Exec LlmError Trace Text
  unfolding attempts strip
  chat max_retries prompt = do
    c ←
        attempts max_retries 0 (record { system = none; user = prompt })
          (λ t. (raised content_filter, t))
    s ← content_or_error (non_empty_content c.content)
    pure (strip s)
