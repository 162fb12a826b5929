-- ===== src/LlmClient/Calls.antt =====
-- The calls and the sleeps of `_call_with_retry` in src/transpose/services/llm_client.py.
use transpose.Prelude.{
  ℕ, zero, suc, ◌*◌, ◌^◌, ◌≤◌, ◌≡◌, ◌⊎◌, refl, sym, ap, true, false, List, [], ◌∷◌, ◌++◌, length,
  length-append, take, append-nil, arith, inl, inr,
}
use transpose.Exec.{Outcome, ok}
use transpose.LlmClient.{
  Completion, Reply, completion, bad_request, rate_limit_error, api_timeout_error, api_error,
  other_exception, LlmError, Prompt, Trace, slept, fallback_stages, attempt_reply, attempts,
  call_with_retry,
}
use transpose.LlmClient.Asked.{
  is_completion, Matches, Backoff, replicate, Went, asked_one, Went-now, Went-then, Stages,
  fallback_stages_lem,
}

module _ (reply : ℕ → Reply) where
  -- The messages are asked some times, each time but the first behind a wait, and then some first stages.
  pub record Called (left attempt : ℕ) (messages : Prompt) (fallbacks : List Prompt) (t : Trace)
      (out : Outcome LlmError Completion × Trace) : Type 0 where
    pub tries : ℕ
    pub stages : ℕ
    pub waits : List ℕ
    pub tries_le : tries ≤ left
    pub stages_le : stages ≤ length fallbacks
    pub one_each : length waits ≡ tries
    pub backoff : Backoff attempt waits
    pub went :
        Went reply t (messages ∷ (replicate tries messages ++ take stages fallbacks)) waits out

  module _ (messages : Prompt) (fallbacks : List Prompt) where
    -- The attempt is the last one.
    Called-once :
        (left attempt : ℕ) (t : Trace) (out : Outcome LlmError Completion)
        → Matches out (reply (length t.prompts))
        → Called left attempt messages fallbacks t (out, asked_one reply messages t)
    Called-once left attempt t out h = record {
      tries = 0;
      stages = 0;
      waits = [];
      tries_le = omega arith;
      stages_le = omega arith;
      one_each = refl;
      backoff = tt;
      went = Went-now reply messages t out h;
    }

    Called-again :
        (left attempt wait : ℕ) (t : Trace) (out : Outcome LlmError Completion × Trace)
        → (wait ≡ 2 ^ attempt) ⊎ (wait ≡ 2 ^ attempt * 2)
        → Called left
            (suc attempt)
            messages
            fallbacks
            (slept reply wait (asked_one reply messages t))
            out
        → Called (suc left) attempt messages fallbacks t out
    Called-again left attempt wait t out b c = record {
      tries = suc c.tries;
      stages = c.stages;
      waits = wait ∷ c.waits;
      tries_le = omega (arith, c.tries_le);
      stages_le = c.stages_le;
      one_each = ap (λ n. suc n) c.one_each;
      backoff = (b, c.backoff);
      went =
          Went-then reply messages t (slept reply wait (asked_one reply messages t)) (wait ∷ []) _
            c.waits out refl refl c.went;
    }

    Called-filtered :
        (left attempt : ℕ) (t : Trace) (out : Outcome LlmError Completion × Trace)
        → Stages reply fallbacks (asked_one reply messages t) out
        → Called left attempt messages fallbacks t out
    Called-filtered left attempt t out (m, le, w) = record {
      tries = 0;
      stages = m;
      waits = [];
      tries_le = omega arith;
      stages_le = le;
      one_each = refl;
      backoff = tt;
      went =
          Went-then reply messages t (asked_one reply messages t) [] (take m fallbacks) [] out refl
            (sym (append-nil t.sleeps)) w;
    }

    filtered_lem :
        (t : Trace)
        → is_completion (reply (length t.prompts)) ≡ false
        → Stages reply fallbacks
            (asked_one reply messages t)
            (fallback_stages reply fallbacks (asked_one reply messages t))
    filtered_lem t h =
        fallback_stages_lem reply fallbacks (asked_one reply messages t) (length t.prompts)
          (omega (arith, length-append t.prompts (messages ∷ []))) h

    -- The last attempt, by its reply.
    last_lem :
        (attempt : ℕ) (t : Trace) (r : Reply) (next : Trace → Outcome LlmError Completion × Trace)
        → reply (length t.prompts) ≡ r
        → Called 0 attempt messages fallbacks t (
            attempt_reply reply r true attempt
              (fallback_stages reply fallbacks)
              next
              (asked_one reply messages t))
    last_lem attempt t (completion c) next e = Called-once 0 attempt t (ok c) e
    last_lem attempt t (bad_request true) next e =
        Called-filtered 0 attempt t _ (filtered_lem t (rw e refl))
    last_lem attempt t (bad_request false) next e = Called-once 0 attempt t _ (rw e refl)
    last_lem attempt t rate_limit_error next e = Called-once 0 attempt t _ (rw e refl)
    last_lem attempt t api_timeout_error next e = Called-once 0 attempt t _ (rw e refl)
    last_lem attempt t api_error next e = Called-once 0 attempt t _ (rw e refl)
    last_lem attempt t other_exception next e = Called-once 0 attempt t _ (rw e refl)

    -- An attempt that others can follow.
    attempt_lem :
        (left attempt : ℕ) (t : Trace) (r : Reply)
        (next : Trace → Outcome LlmError Completion × Trace)
        → reply (length t.prompts) ≡ r
        → ((t' : Trace) → Called left (suc attempt) messages fallbacks t' (next t'))
        → Called (suc left) attempt messages fallbacks t (
            attempt_reply reply r false attempt
              (fallback_stages reply fallbacks)
              next
              (asked_one reply messages t))
    attempt_lem left attempt t (completion c) next e f = Called-once (suc left) attempt t (ok c) e
    attempt_lem left attempt t (bad_request true) next e f =
        Called-filtered (suc left) attempt t _ (filtered_lem t (rw e refl))
    attempt_lem left attempt t (bad_request false) next e f =
        Called-once (suc left) attempt t _ (rw e refl)
    attempt_lem left attempt t rate_limit_error next e f =
        Called-again left attempt (2 ^ attempt * 2) t _ (inr refl) (f _)
    attempt_lem left attempt t api_timeout_error next e f =
        Called-again left attempt (2 ^ attempt) t _ (inl refl) (f _)
    attempt_lem left attempt t api_error next e f =
        Called-again left attempt (2 ^ attempt) t _ (inl refl) (f _)
    attempt_lem left attempt t other_exception next e f =
        Called-once (suc left) attempt t _ (rw e refl)

    attempts_lem :
        (left attempt : ℕ) (t : Trace)
        → Called left attempt messages fallbacks t
            (attempts reply (suc left) attempt messages (fallback_stages reply fallbacks) t)
    unfolding attempts
    attempts_lem zero attempt t = last_lem attempt t (reply (length t.prompts)) _ refl
    attempts_lem (suc left) attempt t =
        attempt_lem left attempt t (reply (length t.prompts)) _ refl
          (attempts_lem left (suc attempt))

-- Whatever the service replies, if at least one attempt is allowed, a call asks its messages once and then again behind
-- one wait each, no more often than attempts are allowed, and then some first stages of the fallback, in order. The wait
-- behind attempt i, counted from 0, is 2 ^ i base delays or twice that. The last reply decides: a completion that is
-- returned is this reply, and if the call raises, this reply is no completion.
pub call_with_retry-Called :
    (reply : ℕ → Reply) (left : ℕ) (messages : Prompt) (fallbacks : List Prompt) (t : Trace)
    → Called reply left 0 messages fallbacks t
        (call_with_retry reply (suc left) messages fallbacks t)
unfolding call_with_retry
call_with_retry-Called reply left messages fallbacks t =
    attempts_lem reply messages fallbacks left 0 t
