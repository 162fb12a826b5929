-- ===== src/Lib.antt =====
-- Transpose: a pipeline that translates a scanned book, stage by stage, with quality gates between the stages.
--
-- The parts and where they are modelled:
--
-- - State.antt: `PipelineState` of src/transpose/services/cache.py, the locks with a time to live and the
--   progress rows of a book. The two PostgreSQL tables are functions from the primary key to the row; `now()`
--   and `uuid4()` are arguments. State/Locks is about competing processes, State/Progress about what a reader
--   of the progress rows sees.
-- - Gates: the gates of src/transpose/pipeline/gates.py and audio_quality_gate.py that look at a stage's output,
--   one module per gate, each with the specification that it decides. Gates/Types holds the stage outputs.
--   Gates/Readiness is the gate before the first stage, which deletes stale locks: Gates/Ready is about when it
--   passes, Gates/StaleLocks about what it does to the table of State.antt.
-- - Exec.antt: coroutines as functions on a state that return or raise; Exec/Triple has the rules for what holds
--   before and after one.
-- - Runner: `run_pipeline` of src/transpose/pipeline/runner.py. Runner/Types has its local variables, as the record
--   `Run`; Runner/Services the operations it calls on the service context, the stages and the files; Runner/Events
--   the stage events (src/transpose/observability/cost_events.py) and `_run_gate`; Runner/Report the validation
--   report; Runner/Resume the start of a run; Runner/Stages one function per stage; Runner/Program the whole run
--   with its handlers. Runner/Calm, Walk, Order, Handler and Locked carry the proofs: what a part leaves
--   alone, how a stage moves the list of completed stages, the stages in order, the handlers, and the answer of the lock.
-- - OcrClient.antt: `_compute_page_ranges`, `_result_to_pages` and `extract_pages` of
--   src/transpose/services/ocr_client.py, with the document service as an argument; OcrClient/Ranges and
--   OcrClient/Merged are about the ranges and about what the merge gives.
-- - RbacRetry.antt: src/transpose/services/azure_rbac_retry.py. RbacRetry/Through turns the loop over attempt numbers
--   into a recursion over the delays, RbacRetry/Delays counts calls and sleeps.
-- - Transcript.antt: the cues of src/transpose/pipeline/transcript.py; Transcript/Stamps has the time stamps,
--   Transcript/Reader a reader of them, Transcript/Files the two file formats, and Transcript/Timed is about the times of the cues.
-- - Chunk.antt: `_join_cross_page_paragraphs` and `_create_chunk` of src/transpose/pipeline/chunk.py, with the
--   tokenizer as an argument; Chunk/Joined is about what they keep of the pages. Chunk/Paragraphs has the chapter
--   markers and the paragraphs, Chunk/Split `_split_oversized_paragraph`, and Chunk/Loop the
--   rest of `run`, with the splitting as any function. Chunk/Sentences, Packed and Parts are about the splitting, Chunk/Within,
--   Whole and Made about what the chunks keep of the paragraphs, and Composed puts the two together.
-- - Translate.antt: `run` of src/transpose/pipeline/translate.py, with the language model and the progress row as
--   an interface: Translate/Rows has the table of translations (src/transpose/services/database.py), Translate/Split
--   `_retry_with_split`, Translate/Single `translate_single_chunk`, Translate/Stage the rest. Translate/Written,
--   Prepared and Complete are about what a run leaves, Settled about a run that finds every chunk translated, and
--   Lost about a chunk whose row is stored but whose progress is not. Translate/Looped is about its loops;
--   Translate/Counted counts the requests of a run, and Translate/Client runs the stage with LlmClient.antt as its
--   model.
-- - Glossary.antt: `run` of src/transpose/pipeline/glossary.py: Glossary/Terms has the aggregation of the extracted
--   terms, Glossary/Variants `_deduplicate_spelling_variants`, Glossary/Stage the entries and the output.
--   Glossary/Counted follows the occurrences of the terms through the stage, Glossary/Merged is about the spellings.
-- - Workspace.antt: `write_metadata`, `update_metadata` and `_deep_merge` of src/transpose/pipeline/workspace.py, with
--   the blob store as an argument; Workspace/License is about the license in metadata.json. Workspace/Slug has the
--   slugs, Kebab their form; Build `build_metadata` and `validate_metadata`, which Validated is about; Publish is
--   `_run_workspace_stage` of src/transpose/pipeline/runner.py, with the replies of the services as a record, and Shared
--   is about what it leaves.
--   Workspace/Schema is src/transpose/workspace/metadata_schema.py, and Accepted compares it with `validate_metadata`.
--   Workspace/Landing is `generate_landing_html`, with Python's printing of values that are no texts as a record, and
--   Markup is about what the metadata can put into the page, Page about the page that the stage publishes.
-- - Ingest.antt: `run` of src/transpose/pipeline/ingest.py on the table of books; Ingest/Once is about a PDF that is
--   given twice.
-- - Ocr.antt: `run` and `_validate_page` of src/transpose/pipeline/ocr.py, on the pages of a book and the progress row of
--   State.antt; Ocr/Pages is about the pages that runs add.
-- - Assemble.antt: `run` of src/transpose/pipeline/assemble.py, with the database and the model as an interface and the
--   character database as an argument: Assemble/Patterns has the regular expressions, Headings, Titles and BookTitle
--   what is read out of translated text, Markers the text without the markers of failures, Foreword, Group and Render
--   the parts of the manuscript, Stage the whole. Filed, Ordered and Parted are about the grouping into chapters,
--   Unmarked and Lost about the markers, Built, Gated and Complete about the manuscript that a run
--   stores.
-- - LlmClient.antt: the calls of src/transpose/services/llm_client.py, with the service as a sequence of replies;
--   Calls is about the calls and the sleeps, Asked about those of the stages. LlmClient/Prompts has the prompts of a
--   chunk and of the stages behind a content filter, System the system prompt, and Response `translate_chunk`, with
--   `json.loads` as an argument; Asks counts its calls, and Sanitized is about the sentences of the third stage.
-- - Prelude.antt: the names and lemmas that all of these share.
-- - Text.antt: what the code uses of Python's `str`, on lists of code points.
--
-- The runner calls the state through `Services`; Runner/Tests fills that record with the operations of State.antt
-- and runs the pipeline. A gate's result goes into `gate_results`, and a gate that fails ends the run by an
-- exception, which the handlers record, publish and raise again.
--
-- Numbers are natural numbers. Ratios are compared with their thresholds by products, which agrees with the rounded
-- quotients for counts below 2 ^ 49. A confidence is the bit pattern of a double that is not negative. Most loops
-- follow a list. The loop of `_compute_page_ranges` has fuel for one range per page, and the retry loop for one round
-- more than there are delays; that this is enough is part of their theorems. The digits of a number have fuel for one
-- round more than the number, which the reading back of a time stamp shows to be enough. The splitting of a paragraph
-- has fuel for one level more than the text has characters, and its theorem shows that this is enough.
--
-- Not modelled: exceptions that `except Exception` lets through, such as the cancellation of a task; failures of the
-- database in the translate stage, but for a second row of a chunk and for the progress row; the images of pages; the export and audiobook stages behind the runner's interface, which stand on a
-- PDF library, renderers and speech services; the order in which parallel tasks interleave; the gates that read a PDF
-- through a library; the HTTP routes, the command line and the other clients of cloud services; clocks, log lines,
-- spans and metrics, float prices, and the texts of messages (a failure keeps the values that its message prints, but
-- a violation of the schema of metadata.json only the field).
pub mod Prelude
pub mod Text
pub mod State
pub mod Gates
pub mod Exec
pub mod Runner
pub mod Transcript
pub mod OcrClient
pub mod RbacRetry
pub mod Chunk
pub mod Translate
pub mod Glossary
pub mod Workspace
pub mod Ingest
pub mod Ocr
pub mod Assemble
pub mod LlmClient
