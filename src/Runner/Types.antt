-- ===== src/Runner/Types.antt =====
-- The input, the output and the local variables of `run_pipeline` in src/transpose/pipeline/runner.py.
use transpose.Prelude.{ℕ, String, Bool, Option, none, some, List, [], ◌∷◌}
use transpose.Text.{Text}
use transpose.Gates.Types.{GateResult, ExportArtifact}

pub data Stage : Type 0 where
  ingest ocr chunk translate glossary assemble export audiobook workspace : Stage

-- `STAGE_ORDER`
abbrev pub stage_order : List Stage
stage_order =
    ingest ∷ ocr ∷ chunk ∷ translate ∷ glossary ∷ assemble ∷ export ∷ audiobook ∷ workspace ∷ []

-- `STAGE_ORDER.index(…)` of a stage
abbrev pub index : Stage → ℕ
index ingest = 0
index ocr = 1
index chunk = 2
index translate = 3
index glossary = 4
index assemble = 5
index export = 6
index audiobook = 7
index workspace = 8

abbrev pub stage_name : Stage → String
stage_name ingest = "ingest"
stage_name ocr = "ocr"
stage_name chunk = "chunk"
stage_name translate = "translate"
stage_name glossary = "glossary"
stage_name assemble = "assemble"
stage_name export = "export"
stage_name audiobook = "audiobook"
stage_name workspace = "workspace"

-- src/transpose/models/enums.py
pub data BookStatus : Type 0 where
  ingested processing ocr_complete chunked translated assembled exported failed : BookStatus

-- Of the fields that are only handed on, those that a stage's input is made of.
pub record PipelineInput : Type 0 where
  pub source_path : Text
  pub title : Text
  pub output_formats : List String
  pub resume_from : Option String
  pub blob_uri : Option Text
  pub output_dir : Option Text
  pub concurrency : Option ℕ
  pub force_retranslate : Bool

pub record IngestOutput : Type 0 where
  pub book_id : String
  pub source_blob_uri : Text
  pub page_count : ℕ
  pub already_existed : Bool

-- An exception other than `QualityGateError`.
pub data Exn : Type 0 where
  value_error : String → Exn
  runtime_error : String → Exn
  other_error : String → Exn

pub data Error : Type 0 where
  gate_error : GateResult → Error
  exn : Exn → Error

-- `error_data`: its texts, `error_type`, `gate_name` and `gate_failures` are read from the exception. A
-- stage `none` is the text "unknown".
pub record ErrorEntry : Type 0 where
  pub stage : Option Stage
  pub error : Error

-- `ServiceUsage` of src/transpose/observability/cost_tracker.py
pub record Usage : Type 0 where
  pub input_tokens : ℕ
  pub output_tokens : ℕ
  pub pages : ℕ
  pub blob_reads : ℕ
  pub blob_writes : ℕ

abbrev pub no_usage : Usage
no_usage = record {
  input_tokens = 0;
  output_tokens = 0;
  pages = 0;
  blob_reads = 0;
  blob_writes = 0;
}

-- The local variables, and the services' state `world`.
pub record Run (W : Type 0) : Type 0 where
  pub book_id : Option String
  pub stages_completed : List Stage
  pub errors : List ErrorEntry
  pub gate_results : List GateResult
  pub artifacts : List ExportArtifact
  pub glossary_term_count : ℕ
  pub total_tokens : ℕ
  pub landing_page_url : Option Text
  pub cost_tracker : Option Usage
  pub active_event : Option String
  pub before : Usage
  pub ingest_output : Option IngestOutput
  pub export_output : Option (List ExportArtifact)
  pub world : W

abbrev pub start : {W : Type 0} → W → Run W
start w = record {
  book_id = none;
  stages_completed = [];
  errors = [];
  gate_results = [];
  artifacts = [];
  glossary_term_count = 0;
  total_tokens = 0;
  landing_page_url = none;
  cost_tracker = none;
  active_event = none;
  before = no_usage;
  ingest_output = none;
  export_output = none;
  world = w;
}

pub record PipelineOutput : Type 0 where
  pub book_id : Option String
  pub status : BookStatus
  pub artifacts : List ExportArtifact
  pub glossary_term_count : ℕ
  pub total_tokens_used : ℕ
  pub stages_completed : List Stage
  pub errors : List ErrorEntry
  pub gate_results : List GateResult
  pub cost_summary : Option Usage
  pub landing_page_url : Option Text

-- `str(book_id)`
abbrev pub book_text : Option String → String
book_text none = "None"
book_text (some b) = b
