-- ===== src/Runner/Tests.antt =====
-- A pipeline on the tables of src/transpose/services/cache.py with small stages: whole runs of it, and the
-- theorems there.
use transpose.Prelude.{
  ◌≡◌, refl, String, Bool, true, false, none, some, List, [], ◌∷◌, arith, eq_refl,
}
use transpose.Text.{contains, starts_with, count_if, is_blank, is_space, codes}
use transpose.Exec.{◌>>=◌, attempt, Outcome, ok, Exec, pure, raise}
use transpose.Exec.Triple.{Ends}
use transpose.Gates.Types.{GateResult, result}
use transpose.Runner.Types.{
  Stage, ingest, ocr, chunk, translate, glossary, assemble, export, workspace, stage_order,
  PipelineInput, Exn, other_error, Error, Run, start, PipelineOutput,
}
use transpose.Runner.Events.{
  lift, snapshot_tracker, complete, track, record_stage_start, record_stage_end, begin_for,
  begin_stage_event, end_for, end_stage_event, set_status, finish_stage, run_gate,
}
use transpose.Runner.Report.{
  all_passed, artifact_map, build_validation_report, persist_validation_report, write_if,
  publish_report,
}
use transpose.Runner.Resume.{
  blob_name, by_title, find_by_url, by_source, find_existing, resumed_with, resolve_book,
  reraise_runtime, preflight, start_index,
}
use transpose.Runner.Stages.{
  after_lock, stage_ingest, need_book, stage_ocr, stage_chunk, stage_translate, stage_glossary,
  stage_assemble, pdf_artifact_path, pdf_gates, gates_of, stage_export, stage_audiobook, publish,
  stage_workspace,
}
use transpose.Runner.Program.{
  wants, first_stage, later_stages, judge_for, oracle, persist_for, persist_costs, release_for,
  release, finish, after_first, body, fail_book, on_error, guarded, run_pipeline,
}
use transpose.Gates.Ocr.{ocr_sanity_gate}
use transpose.Gates.Translation.{translation_completeness_gate}
use transpose.Gates.Glossary.{glossary_integrity_gate}
use transpose.Gates.Structure.{document_structure_gate}
use transpose.Gates.Artifacts.{artifact_availability_gate}
use transpose.Runner.Services.{Services}
use transpose.Runner.Order.{plan_of}
use transpose.Runner.Walk.{Halted}
use transpose.Runner.Handler.{IsReliable}
use transpose.Runner.Ends.{Delivered, run_pipeline-Ends}
use transpose.Runner.Release.{Frees, Freed, RefusedOrFreed, guarded-Freed}
use transpose.Runner.Resumed.{resumed_never_locks}
use transpose.State.{Tables, new, acquire_lock, release_lock, set_pipeline_status}

abbrev locked_at_100 : String → Exec Exn Tables Bool
locked_at_100 b db = let (_, db', done) = acquire_lock 100 "alice" new db b 3600 in (ok done, db')

abbrev passes : String → Exec Exn Tables GateResult
passes name = pure (result name [])

abbrev services : Services Tables
services = record {
  acquire_lock = locked_at_100;
  release_lock = λ b db. (ok tt, release_lock db b);
  set_pipeline_status = λ b t db. (ok tt, set_pipeline_status 100 db b t);
  update_book_status = λ b t. pure tt;
  get_book_by_hash = λ h. pure (some "gita");
  latest_book_titled = λ t. pure none;
  uuid4 = pure "id";
  is_uuid = λ t. true;
  insert_event = λ e b t. raise (other_error "no table");
  update_event = λ e t u. pure tt;
  ensure_validation_reports_table = pure tt;
  save_validation_report = λ b r o. pure tt;
  ensure_book_costs_table = pure tt;
  persist_costs = λ u. raise (other_error "no table");
  path_exists = λ p. pure true;
  sha256_file = λ p. pure (codes "ab");
  write_report = λ d r. pure tt;
  is_file = λ p. true;
  url_path = λ u. u;
  normalize_nfc = λ t. t;
  operational_readiness_gate = pure false;
  preflight_blocking = false;
  ingest = λ i.
      pure (record {
        book_id = "gita";
        source_blob_uri = [];
        page_count = 2;
        already_existed = false;
      });
  ocr = λ b f. pure (record {
    pages_processed = 2;
    pages_skipped = 0;
    low_confidence_count = 0;
    page_results = [];
  });
  chunk = λ b f. pure tt;
  translate = λ b n f. pure (record {
    chunks_translated = 0;
    chunks_skipped = 1;
    total_prompt_tokens = 7;
    total_completion_tokens = 5;
    translations = [];
    failed_count = 0;
  });
  glossary = λ b. pure (record {
    total_terms = 1;
    needs_review_count = 0;
    entries =
        record { term = codes "dharma"; original_script = codes "धर्म"; definition = codes "law" }
        ∷ [];
  });
  assemble = λ b. pure (record { title = codes "Gita"; chapters = 1 ∷ []; table_of_contents = [] });
  export = λ b f. pure (record { format = "epub"; blob_uri = []; file_size_bytes = 2048 } ∷ []);
  audiobook = λ b. pure (record { chapters = []; total_duration_ms = 0 });
  workspace = λ i b n e. raise (other_error "no site");
  export_rendering_gate = λ p. passes "export_rendering";
  golden_targeted_qa_gate = λ p. passes "golden_targeted_qa";
  validate_production_readiness = λ p. passes "production_readiness";
  source_output_comparison_gate = λ s p. passes "source_output_comparison";
  has_anthropic_key = true;
  judge_translation_quality = λ b. raise (other_error "no judge");
  low_confidence_threshold = 80;
  translate_concurrency = 5;
}

-- One whose manuscript has no title.
abbrev untitled : Services Tables
untitled = record services {
  assemble = λ b. pure (record { title = []; chapters = 1 ∷ []; table_of_contents = [] });
}

abbrev input : PipelineInput
input = record {
  source_path = codes "/in/gita.pdf";
  title = codes "Gita";
  output_formats = "pdf" ∷ "epub" ∷ [];
  resume_from = none;
  blob_uri = none;
  output_dir = some (codes "/out");
  concurrency = none;
  force_retranslate = false;
}

abbrev resumed : PipelineInput
resumed = record input { resume_from = some "assemble" }

abbrev no_rows : Tables
no_rows = record { pipeline_locks = λ _. none; pipeline_state = λ _. none }

-- Another process holds the book's lock.
abbrev held : Tables
held = record no_rows {
  pipeline_locks = λ _. some (record { locked_at = 90; expires_at = 3690; holder_id = "bob" });
}

abbrev stages_of : Outcome Error PipelineOutput × Run Tables → List Stage
stages_of (_, s) = s.stages_completed

abbrev IsFree : Tables → String → Type 0
IsFree db b = db.pipeline_locks b ≡ none

services-IsReliable : IsReliable services
services-IsReliable = record {
  writes = λ d r w. refl;
  updates = λ b t w. refl;
  releases = λ b w. refl;
}

untitled-IsReliable : IsReliable untitled
untitled-IsReliable = record {
  writes = λ d r w. refl;
  updates = λ b t w. refl;
  releases = λ b w. refl;
}

untitled-Frees : Frees untitled IsFree
unfolding release_lock
untitled-Frees b w = ground (arith, eq_refl b)

run_completes :
    stages_of (run_pipeline services input (start no_rows))
    ≡ ingest ∷ ocr ∷ chunk ∷ translate ∷ glossary ∷ assemble ∷ export ∷ workspace ∷ []
unfolding ◌>>=◌ attempt lift snapshot_tracker complete track record_stage_start record_stage_end
    begin_for begin_stage_event end_for end_stage_event set_status finish_stage run_gate all_passed
    artifact_map build_validation_report persist_validation_report write_if publish_report
    start_index blob_name by_title find_by_url by_source find_existing resumed_with resolve_book
    reraise_runtime preflight after_lock stage_ingest need_book stage_ocr stage_chunk
    stage_translate stage_glossary stage_assemble pdf_artifact_path pdf_gates gates_of stage_export
    stage_audiobook publish stage_workspace wants first_stage later_stages judge_for oracle
    persist_for persist_costs release_for release finish after_first body fail_book on_error guarded
    run_pipeline acquire_lock release_lock set_pipeline_status ocr_sanity_gate
    translation_completeness_gate glossary_integrity_gate contains starts_with count_if
    document_structure_gate is_blank is_space artifact_availability_gate
run_completes = refl

-- A run that resumes takes the lock from its holder.
resumed_frees : (run_pipeline services resumed (start held)).1.world.pipeline_locks "gita" ≡ none
unfolding ◌>>=◌ attempt lift snapshot_tracker complete track record_stage_start record_stage_end
    begin_for begin_stage_event end_for end_stage_event set_status finish_stage run_gate all_passed
    artifact_map build_validation_report persist_validation_report write_if publish_report
    start_index blob_name by_title find_by_url by_source find_existing resumed_with resolve_book
    reraise_runtime preflight after_lock stage_ingest need_book stage_ocr stage_chunk
    stage_translate stage_glossary stage_assemble pdf_artifact_path pdf_gates gates_of stage_export
    stage_audiobook publish stage_workspace wants first_stage later_stages judge_for oracle
    persist_for persist_costs release_for release finish after_first body fail_book on_error guarded
    run_pipeline acquire_lock release_lock set_pipeline_status document_structure_gate is_blank
    is_space artifact_availability_gate
resumed_frees = refl

run_pipeline-Ends_example :
    Ends
      (Delivered services input)
      (Halted [] (plan_of input stage_order))
      (run_pipeline services input (start no_rows))
run_pipeline-Ends_example = run_pipeline-Ends services input services-IsReliable no_rows

guarded-Freed_example :
    Ends
      (RefusedOrFreed untitled input IsFree)
      (λ _. Freed untitled input IsFree)
      (guarded untitled input (start no_rows))
guarded-Freed_example =
    guarded-Freed untitled input IsFree untitled-Frees untitled-IsReliable (start no_rows)

resumed_never_locks_example :
    run_pipeline
      (record services { acquire_lock = λ b. raise (other_error "asked") })
      resumed
      (start held)
    ≡ run_pipeline services resumed (start held)
resumed_never_locks_example =
    resumed_never_locks services resumed (λ b. raise (other_error "asked")) (start held)
      (unfold start_index in omega arith)
