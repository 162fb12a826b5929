-- ===== src/Translate/ClientTests.antt =====
-- A run of src/transpose/pipeline/translate.py with a service that replies by its content filter only.
use transpose.Prelude.{
  ℕ, ◌+◌, ◌*◌, ◌≤◌, ◌≡◌, refl, String, true, false, Option, none, some, List, [], ◌∷◌, length,
}
use transpose.Text.{Text, codes}
use transpose.Exec.{Exec, pure}
use transpose.Runner.Types.{BookStatus}
use transpose.LlmClient.{Reply, bad_request, Trace}
use transpose.LlmClient.Response.{Parsed, extracted_terms}
use transpose.LlmClient.Asks.{asked_count}
use transpose.Glossary.Terms.{llm_detected}
use transpose.Translate.Split.{Exc}
use transpose.Translate.Single.{ChunkRow, Work}
use transpose.Translate.Stage.{TranslateInput, run}
use transpose.Translate.Counted.{todo_of}
use transpose.Translate.Client.{client_model, run-asks}

abbrev progress : String → String → ℕ → ℕ → Exec Exc ℕ (Unit {0})
progress book stage n total = pure tt

abbrev filtering : ℕ → Reply
filtering n = bad_request true

abbrev unreadable : Text → Option Parsed
unreadable t = none

abbrev fresh : Work (Trace × ℕ)
fresh = record {
  rows = [];
  status = BookStatus.chunked;
  failed_count = 0;
  completed_count = 0;
  world = (record { prompts = []; sleeps = [] }, 0);
}

abbrev one_chunk : List ChunkRow
one_chunk = record { id = "c"; source_text = codes "शब्द। शब्द।" } ∷ []

abbrev input : TranslateInput
input = record { book_id = "b"; force_retranslate = false; concurrency = 1 }

terms_read :
    extracted_terms (
      record {
        term = some (codes "dharma");
        original_script = none;
        definition = none;
        source = none;
      }
      ∷ [])
    ≡ some (
        record {
          term = codes "dharma";
          original_script = [];
          definition = [];
          source = llm_detected;
        }
        ∷ [])
unfolding extracted_terms
terms_read = refl

run-asks_example :
    asked_count
      (run
        (client_model progress (λ t. t) filtering unreadable 3 [])
        input
        (some "hindi")
        one_chunk
        fresh).1.world.0
    ≤ asked_count fresh.world.0 + length (todo_of input one_chunk fresh) * (3 * (3 + 3))
run-asks_example =
    run-asks progress (λ t. t) filtering unreadable 3 [] input (some "hindi") one_chunk fresh
