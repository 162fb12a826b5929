-- ===== src/Runner/Services.antt =====
-- What `run_pipeline` of src/transpose/pipeline/runner.py calls: the service context `ctx`, the stages, the
-- gates that read files, the file system and the settings. `W` is all that these change.
use transpose.Prelude.{ℕ, String, Bool, Option}
use transpose.Text.{Text}
use transpose.Exec.{Exec}
use transpose.Gates.Types.{
  GateResult, OcrOutput, TranslateOutput, GlossaryOutput, AssembleOutput, ExportArtifact,
  AudiobookOutput,
}
use transpose.Prelude.{List}
use transpose.Runner.Types.{BookStatus, PipelineInput, IngestOutput, Exn, Usage}

-- `_build_validation_report`: its gates, whether it says PASS, and the artifact of each format.
pub record Report : Type 0 where
  pub book_id : Option String
  pub gates : List GateResult
  pub overall : Bool
  pub artifacts : String → Option ExportArtifact

pub record Services (W : Type 0) : Type 0 where
  -- `ctx.state`
  pub acquire_lock : String → Exec Exn W Bool
  pub release_lock : String → Exec Exn W (Unit {0})
  pub set_pipeline_status : String → String → Exec Exn W (Unit {0})
  -- `ctx.db`
  pub update_book_status : String → BookStatus → Exec Exn W (Unit {0})
  pub get_book_by_hash : Text → Exec Exn W (Option String)
  pub latest_book_titled : Text → Exec Exn W (Option String)
  pub uuid4 : Exec Exn W String
  pub is_uuid : String → Bool
  pub insert_event : String → String → String → Exec Exn W (Unit {0})
  pub update_event : String → String → Usage → Exec Exn W (Unit {0})
  pub ensure_validation_reports_table : Exec Exn W (Unit {0})
  pub save_validation_report : String → Report → Option ℕ → Exec Exn W (Unit {0})
  pub ensure_book_costs_table : Exec Exn W (Unit {0})
  pub persist_costs : Usage → Exec Exn W (Unit {0})
  -- files
  pub path_exists : Text → Exec Exn W Bool
  pub sha256_file : Text → Exec Exn W Text
  pub write_report : Text → Report → Exec Exn W (Unit {0})
  pub is_file : Text → Bool
  pub url_path : Text → Text
  pub normalize_nfc : Text → Text
  -- the preflight: whether it passed, and `TRANSPOSE_PREFLIGHT_BLOCK`
  pub operational_readiness_gate : Exec Exn W Bool
  pub preflight_blocking : Bool
  -- the stages
  pub ingest : PipelineInput → Exec Exn W IngestOutput
  pub ocr : Option String → Bool → Exec Exn W OcrOutput
  pub chunk : Option String → Bool → Exec Exn W (Unit {0})
  pub translate : Option String → ℕ → Bool → Exec Exn W TranslateOutput
  pub glossary : Option String → Exec Exn W GlossaryOutput
  pub assemble : Option String → Exec Exn W AssembleOutput
  pub export : Option String → List String → Exec Exn W (List ExportArtifact)
  pub audiobook : Option String → Exec Exn W AudiobookOutput
  pub workspace :
      PipelineInput
      → Option String
      → Option IngestOutput
      → Option (List ExportArtifact)
      → Exec Exn W Text
  -- the gates that read the exported PDF, and the judge behind its API key
  pub export_rendering_gate : Text → Exec Exn W GateResult
  pub golden_targeted_qa_gate : Text → Exec Exn W GateResult
  pub validate_production_readiness : Text → Exec Exn W GateResult
  pub source_output_comparison_gate : Option Text → Text → Exec Exn W GateResult
  pub has_anthropic_key : Bool
  pub judge_translation_quality : String → Exec Exn W (Option ℕ)
  -- `ctx.settings`
  pub low_confidence_threshold : ℕ
  pub translate_concurrency : ℕ
