-- ===== src/Runner/Stages.antt =====
-- The stages of `run_pipeline` in src/transpose/pipeline/runner.py, each with what the coroutine does around it.
use transpose.Prelude.{
  ℕ, ◌+◌, String, Bool, true, false, not, ◌||◌, Option, none, some, List, [], ◌∷◌, ◌++◌, ◌==◌,
  if◌then◌else◌, length, str_eq,
}
use transpose.Text.{Text, codes, is_empty, starts_with}
use transpose.Exec.{Exec, pure, raise, gets, modify, when, attempt, ◌>>=◌, ◌>>◌}
use transpose.Gates.Types.{ExportArtifact}
use transpose.Gates.Ocr.{ocr_sanity_gate}
use transpose.Gates.Translation.{translation_completeness_gate}
use transpose.Gates.Glossary.{glossary_integrity_gate}
use transpose.Gates.Structure.{document_structure_gate}
use transpose.Gates.Artifacts.{artifact_availability_gate, has_drive}
use transpose.Gates.Audio.{audio_quality_gate}
use transpose.Runner.Types.{
  ingest, ocr, chunk, translate, glossary, assemble, export, audiobook, workspace, PipelineInput,
  value_error, Error, exn, Usage, no_usage, Run,
}
use transpose.Runner.Services.{Services}
use transpose.Runner.Events.{
  lift, begin_stage_event, end_stage_event, complete, finish_stage, run_gate, track,
}

-- `cost_tracker.record_blob_operation("write")`
abbrev add_write : Usage → Usage
add_write u = record u { blob_writes = u.blob_writes + 1 }

-- `input.concurrency or ctx.settings.translate_concurrency`
abbrev pub concurrency_or : Option ℕ → ℕ → ℕ
concurrency_or none setting = setting
concurrency_or (some c) setting = if c == 0 then setting else c

module _ {W : Type 0} (svc : Services W) where
  -- The first stage, and the lock: `true` is the early return of a run that is refused the lock.
  unfoldable pub after_lock : String → Bool → Exec Error (Run W) Bool
  after_lock b true = do finish_stage svc ingest; pure false
  after_lock b false = do lift (svc.set_pipeline_status b "locked"); pure true

  unfoldable pub stage_ingest : PipelineInput → Exec Error (Run W) Bool
  stage_ingest input = do
    out ← lift (svc.ingest input)
    modify (λ s. record s {
      book_id = some out.book_id;
      ingest_output = some out;
      cost_tracker = some no_usage;
    })
    when (not out.already_existed) (track add_write)
    begin_stage_event svc ingest
    locked ← lift (svc.acquire_lock out.book_id)
    after_lock out.book_id locked

  -- `if not book_id and input.resume_from: raise …`
  unfoldable pub need_book : Option String → Option String → Exec Error (Run W) (Unit {0})
  need_book (some b) resume_from = pure tt
  need_book none none = pure tt
  need_book none (some stage) =
      when (not (str_eq stage "")) (raise (exn (value_error "book_id required for resume_from")))

  unfoldable pub stage_ocr : PipelineInput → Exec Error (Run W) (Unit {0})
  stage_ocr input = do
    begin_stage_event svc ocr
    b ← gets (λ s. s.book_id)
    need_book b input.resume_from
    out ← lift (svc.ocr b input.force_retranslate)
    track (λ u. record u { pages = u.pages + out.pages_processed })
    finish_stage svc ocr
    run_gate svc (pure (ocr_sanity_gate svc.low_confidence_threshold out))

  unfoldable pub stage_chunk : PipelineInput → Exec Error (Run W) (Unit {0})
  stage_chunk input = do
    begin_stage_event svc chunk
    b ← gets (λ s. s.book_id)
    lift (svc.chunk b input.force_retranslate)
    finish_stage svc chunk

  unfoldable pub stage_translate : PipelineInput → Exec Error (Run W) (Unit {0})
  stage_translate input = do
    begin_stage_event svc translate
    b ← gets (λ s. s.book_id)
    out ← lift (
        svc.translate b (concurrency_or input.concurrency svc.translate_concurrency)
          input.force_retranslate)
    finish_stage svc translate
    modify (λ s. record s { total_tokens = out.total_prompt_tokens + out.total_completion_tokens })
    track (λ u. record u {
      input_tokens = u.input_tokens + out.total_prompt_tokens;
      output_tokens = u.output_tokens + out.total_completion_tokens;
    })
    run_gate svc (pure (translation_completeness_gate out))

  unfoldable pub stage_glossary : Exec Error (Run W) (Unit {0})
  stage_glossary = do
    begin_stage_event svc glossary
    b ← gets (λ s. s.book_id)
    out ← lift (svc.glossary b)
    finish_stage svc glossary
    modify (λ s. record s { glossary_term_count = out.total_terms })
    run_gate svc (pure (glossary_integrity_gate svc.normalize_nfc out))

  unfoldable pub stage_assemble : Exec Error (Run W) (Unit {0})
  stage_assemble = do
    begin_stage_event svc assemble
    b ← gets (λ s. s.book_id)
    out ← lift (svc.assemble b)
    finish_stage svc assemble
    run_gate svc (pure (document_structure_gate out))

  -- The path of the first PDF artifact, if it is a local file's.
  unfoldable pub pdf_artifact_path : List ExportArtifact → Option Text
  pdf_artifact_path [] = none
  pdf_artifact_path (a ∷ rest) =
      let later = pdf_artifact_path rest in
      if str_eq a.format "pdf"
      then (if starts_with (codes "file://") a.blob_uri
          then some (svc.url_path a.blob_uri)
          else if starts_with (codes "/") a.blob_uri || has_drive a.blob_uri
          then some a.blob_uri
          else none)
      else later

  -- The four gates that read the exported PDF, if its path is a text that is not empty.
  unfoldable pub pdf_gates : PipelineInput → Text → Exec Error (Run W) (Unit {0})
  pdf_gates input path = do
    run_gate svc (svc.export_rendering_gate path)
    run_gate svc (svc.golden_targeted_qa_gate path)
    run_gate svc (svc.validate_production_readiness path)
    exists ←
        if is_empty input.source_path then pure false else lift (svc.path_exists input.source_path)
    run_gate svc
        (svc.source_output_comparison_gate (if exists then some input.source_path else none) path)

  unfoldable pub gates_of : PipelineInput → Option Text → Exec Error (Run W) (Unit {0})
  gates_of input none = pure tt
  gates_of input (some path) = when (not (is_empty path)) (pdf_gates input path)

  unfoldable pub stage_export : PipelineInput → Exec Error (Run W) (Unit {0})
  stage_export input = do
    begin_stage_event svc export
    b ← gets (λ s. s.book_id)
    out ← lift (svc.export b input.output_formats)
    modify (λ s. record s { export_output = some out })
    finish_stage svc export
    modify (λ s. record s { artifacts = out })
    track (λ u. record u { blob_writes = u.blob_writes + length out })
    run_gate svc (pure (artifact_availability_gate svc.is_file svc.url_path out))
    gates_of input (pdf_artifact_path out)

  unfoldable pub stage_audiobook : Exec Error (Run W) (Unit {0})
  stage_audiobook = do
    begin_stage_event svc audiobook
    b ← gets (λ s. s.book_id)
    out ← lift (svc.audiobook b)
    finish_stage svc audiobook
    run_gate svc (pure (audio_quality_gate out))

  -- The workspace stage is not fatal: its exception goes into `errors`.
  unfoldable pub publish : PipelineInput → Exec Error (Run W) (Unit {0})
  publish input = do
    b ← gets (λ s. s.book_id)
    i ← gets (λ s. s.ingest_output)
    e ← gets (λ s. s.export_output)
    url ← lift (svc.workspace input b i e)
    modify (λ s. record s { landing_page_url = some url })

  unfoldable pub stage_workspace : PipelineInput → Exec Error (Run W) (Unit {0})
  stage_workspace input = do
    begin_stage_event svc workspace
    attempt (publish input) (λ e.
        modify (λ s. record s {
          errors = s.errors ++ record { stage = some workspace; error = e } ∷ [];
        }))
    complete workspace
    end_stage_event svc "completed"
