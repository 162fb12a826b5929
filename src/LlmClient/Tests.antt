-- ===== src/LlmClient/Tests.antt =====
-- Calls of src/transpose/services/llm_client.py.
use transpose.Prelude.{
  List, All, any, true, false, ℕ, ◌≡◌, refl, none, some, [], ◌∷◌, ◌==◌, if◌then◌else◌,
}
use transpose.Text.{Text, is_blank, contains, starts_with, codes, rstrip, lstrip, is_space}
use transpose.Exec.{ok, ◌>>=◌}
use transpose.LlmClient.{
  Completion, Reply, completion, bad_request, rate_limit_error, api_timeout_error, Prompt, Trace,
  call_with_retry, chat,
}
use transpose.LlmClient.Prompts.{
  sentences_from, rebuild, body_patterns, hindi, paraphrase, substitute_all, matched_length,
}
use transpose.LlmClient.Sanitized.{IsShown, rebuild-IsShown}
use transpose.LlmClient.Calls.{Called, call_with_retry-Called}

abbrev answer : Completion
answer = record { content = some (codes " {} "); usage = none; model = "gpt" }

abbrev messages : Prompt
messages = record { system = some (codes "s"); user = codes "u" }

abbrev stage : Prompt
stage = record { system = some (codes "h"); user = codes "v" }

abbrev quiet : Trace
quiet = record { prompts = []; sleeps = [] }

-- A rate limit, the content filter, a refusal of the first stage, then an answer.
abbrev replies : ℕ → Reply
replies n =
    if n == 0
    then rate_limit_error
    else if n == 1
    then bad_request true
    else if n == 2
    then bad_request false
    else completion answer

staged :
    call_with_retry replies 3 messages (stage ∷ stage ∷ []) quiet
    ≡ (ok answer, record { prompts = messages ∷ messages ∷ stage ∷ stage ∷ []; sleeps = 2 ∷ [] })
unfolding call_with_retry
staged = refl

chatted :
    chat (λ n. if n == 2 then completion answer else api_timeout_error) 3 (codes "u") quiet ≡ (
      ok (codes "{}"),
      record {
        prompts =
            record { system = none; user = codes "u" }
            ∷ record { system = none; user = codes "u" }
            ∷ record { system = none; user = codes "u" }
            ∷ [];
        sleeps = 1 ∷ 2 ∷ [];
      },
    )
unfolding chat ◌>>=◌ rstrip lstrip is_space
chatted = refl

call_with_retry-Called_example :
    Called replies 2 0 messages
      (stage ∷ stage ∷ [])
      quiet
      (call_with_retry replies 3 messages (stage ∷ stage ∷ []) quiet)
call_with_retry-Called_example =
    call_with_retry-Called replies 2 messages (stage ∷ stage ∷ []) quiet

abbrev sentences : List Text
sentences = codes "नग्न सत्य।" ∷ codes " " ∷ codes "शब्द।" ∷ []

split :
    sentences_from [] false (codes "a.. b?\n\nc")
    ≡ codes "a." ∷ codes "." ∷ codes "b?" ∷ codes "c" ∷ []
unfolding sentences_from is_space
split = refl

rebuilt : rebuild (body_patterns hindi) sentences ≡ (paraphrase ∷ codes "शब्द।" ∷ [], 1)
unfolding rebuild is_blank any contains starts_with is_space
rebuilt = refl

substituted :
    substitute_all (body_patterns hindi) (codes "x देहधारी देह")
    ≡ codes "x [embodied being] [embodied being]"
unfolding substitute_all matched_length starts_with
substituted = refl

rebuild-IsShown_example :
    All (IsShown (body_patterns hindi)) (rebuild (body_patterns hindi) sentences).0
rebuild-IsShown_example = rebuild-IsShown hindi sentences
