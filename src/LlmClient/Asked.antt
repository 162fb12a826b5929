-- ===== src/LlmClient/Asked.antt =====
-- What has been asked and slept behind a call of the stages in src/transpose/services/llm_client.py.
use transpose.Prelude.{
  ℕ, zero, suc, ◌*◌, ◌^◌, ◌≤◌, ◌≡◌, ◌⊎◌, refl, sym, ap, ◌∙◌, Bool, true, false, List, [], ◌∷◌, ◌++◌,
  length, length-append, take, append_assoc, append-nil, arith,
}
use transpose.Exec.{Outcome, ok, raised}
use transpose.LlmClient.{
  Completion, Reply, completion, bad_request, rate_limit_error, api_timeout_error, api_error,
  other_exception, LlmError, content_filter, Prompt, Trace, stage_reply, fallback_stages,
}

abbrev pub is_completion : Reply → Bool
is_completion (completion c) = true
is_completion (bad_request b) = false
is_completion rate_limit_error = false
is_completion api_timeout_error = false
is_completion api_error = false
is_completion other_exception = false

-- A result is the completion that was replied, and an exception is none.
abbrev pub Matches : Outcome LlmError Completion → Reply → Type 0
Matches (ok c) r = r ≡ completion c
Matches (raised e) r = is_completion r ≡ false

-- Each wait is that of its attempt, or twice that behind a rate limit.
abbrev pub Backoff : ℕ → List ℕ → Type 0
Backoff attempt [] = Unit {0}
Backoff attempt (w ∷ ws) = ((w ≡ 2 ^ attempt) ⊎ (w ≡ 2 ^ attempt * 2)) × Backoff (suc attempt) ws

abbrev pub replicate {ℓ} : {A : Type ℓ} → ℕ → A → List A
replicate zero x = []
replicate (suc n) x = x ∷ replicate n x

-- These prompts were asked and these waits slept, and the last reply gave the result.
pub record Went (reply : ℕ → Reply) (t : Trace) (asked : List Prompt) (waits : List ℕ)
    (out : Outcome LlmError Completion × Trace) : Type 0 where
  pub prompts : out.1.prompts ≡ t.prompts ++ asked
  pub sleeps : out.1.sleeps ≡ t.sleeps ++ waits
  pub last : ℕ
  pub count : length out.1.prompts ≡ suc last
  pub matched : Matches out.0 (reply last)

module _ (reply : ℕ → Reply) where
  abbrev pub asked_one : (p : Prompt) (t : Trace) → Trace
  asked_one p t = record t { prompts = t.prompts ++ p ∷ [] }

  -- Right behind a call, with its result.
  pub Went-now :
      (p : Prompt) (t : Trace) (out : Outcome LlmError Completion)
      → Matches out (reply (length t.prompts))
      → Went reply t (p ∷ []) [] (out, asked_one p t)
  Went-now p t out h = record {
    prompts = refl;
    sleeps = sym (append-nil t.sleeps);
    last = length t.prompts;
    count = omega (arith, length-append t.prompts (p ∷ []));
    matched = h;
  }

  -- A call, a wait if any, and what went on behind them.
  pub Went-then :
      (p : Prompt) (t t1 : Trace) (wait : List ℕ) (asked : List Prompt) (waits : List ℕ)
      (out : Outcome LlmError Completion × Trace)
      → t1.prompts ≡ t.prompts ++ p ∷ []
      → t1.sleeps ≡ t.sleeps ++ wait
      → Went reply t1 asked waits out
      → Went reply t (p ∷ asked) (wait ++ waits) out
  Went-then p t t1 wait asked waits out e f w = record {
    prompts = w.prompts ∙ (ap (λ ps. ps ++ asked) e ∙ append_assoc t.prompts (p ∷ []) asked);
    sleeps = w.sleeps ∙ (ap (λ ss. ss ++ waits) f ∙ append_assoc t.sleeps wait waits);
    last = w.last;
    count = w.count;
    matched = w.matched;
  }

  Went-nothing :
      (t : Trace) (n : ℕ) (e : LlmError)
      → length t.prompts ≡ suc n
      → is_completion (reply n) ≡ false
      → Went reply t [] [] (raised e, t)
  Went-nothing t n e c h = record {
    prompts = sym (append-nil t.prompts);
    sleeps = sym (append-nil t.sleeps);
    last = n;
    count = c;
    matched = h;
  }

  -- Some first stages are asked.
  abbrev pub Stages : List Prompt → Trace → Outcome LlmError Completion × Trace → Type 0
  Stages ps t out = (m : ℕ) × (m ≤ length ps) × Went reply t (take m ps) [] out

  stage_lem :
      (p : Prompt) (ps : List Prompt) (t : Trace) (r : Reply)
      (next : Trace → Outcome LlmError Completion × Trace)
      → reply (length t.prompts) ≡ r
      → (is_completion r ≡ false → Stages ps (asked_one p t) (next (asked_one p t)))
      → Stages (p ∷ ps) t (stage_reply reply r next (asked_one p t))
  stage_lem p ps t (completion c) next e f = (1, omega arith, Went-now p t (ok c) e)
  stage_lem p ps t (bad_request b) next e f =
      let (m, le, w) = f refl in
      (
        suc m,
        omega (arith, le),
        Went-then p t (asked_one p t) [] (take m ps) [] (next (asked_one p t)) refl
            (sym (append-nil t.sleeps)) w,
      )
  stage_lem p ps t rate_limit_error next e f =
      (1, omega arith, Went-now p t (raised content_filter) (rw e refl))
  stage_lem p ps t api_timeout_error next e f =
      (1, omega arith, Went-now p t (raised content_filter) (rw e refl))
  stage_lem p ps t api_error next e f =
      (1, omega arith, Went-now p t (raised content_filter) (rw e refl))
  stage_lem p ps t other_exception next e f =
      (1, omega arith, Went-now p t (raised content_filter) (rw e refl))

  pub fallback_stages_lem :
      (ps : List Prompt) (t : Trace) (n : ℕ)
      → length t.prompts ≡ suc n
      → is_completion (reply n) ≡ false
      → Stages ps t (fallback_stages reply ps t)
  unfolding fallback_stages
  fallback_stages_lem [] t n c h = (0, omega arith, Went-nothing t n content_filter c h)
  fallback_stages_lem (p ∷ ps) t n c h =
      stage_lem p ps t (reply (length t.prompts)) (fallback_stages reply ps) refl λ e.
        fallback_stages_lem ps (asked_one p t) (length t.prompts)
          (omega (arith, length-append t.prompts (p ∷ []))) e
