-- ===== src/Runner/Resumed.antt =====
-- Resumed runs of `run_pipeline` of src/transpose/pipeline/runner.py.
use transpose.Prelude.{ℕ, ◌<◌, ◌≡◌, refl, String, Bool, true, false, arith, leb}
use transpose.Exec.{Exec}
use transpose.Runner.Types.{PipelineInput, Exn, Run}
use transpose.Runner.Services.{Services}
use mathlib.Core.Path.{fun_ext}
use transpose.Runner.Report.{write_if, publish_report, persist_validation_report}
use transpose.Runner.Stages.{
  stage_ocr, stage_chunk, stage_translate, stage_glossary, stage_assemble, stage_export,
  stage_audiobook, stage_workspace, need_book, gates_of, pdf_gates, pdf_artifact_path, publish,
}
use transpose.Runner.Program.{
  later_stages, finish, oracle, judge_for, persist_costs, persist_for, release, release_for,
  after_first, on_error, fail_book, run_pipeline, guarded, body, first_stage,
}
use transpose.Runner.Resume.{
  start_index, resolve_book, find_existing, by_source, find_by_url, by_title, resumed_with,
  preflight, reraise_runtime,
}
use transpose.Runner.Events.{begin_stage_event, end_stage_event, set_status, finish_stage, run_gate}

-- Parts that do not call `acquire_lock` are the same with another.
module _ {W : Type 0} (svc : Services W) (input : PipelineInput)
    (other : String → Exec Exn W Bool) where
  abbrev locked_by : Services W
  locked_by = record svc { acquire_lock = other }

  same_resolve_book : resolve_book locked_by input ≡ resolve_book svc input
  unfolding resolve_book find_existing by_source find_by_url by_title resumed_with
  same_resolve_book = refl

  same_preflight : preflight locked_by ≡ preflight svc
  unfolding preflight reraise_runtime
  same_preflight = refl

  same_later_stages : later_stages locked_by input ≡ later_stages svc input
  unfolding later_stages stage_ocr stage_chunk stage_translate stage_glossary stage_assemble
      stage_export stage_audiobook stage_workspace begin_stage_event end_stage_event set_status
      finish_stage run_gate need_book gates_of pdf_gates pdf_artifact_path publish
  same_later_stages = refl

  same_finish : finish locked_by input ≡ finish svc input
  unfolding finish oracle judge_for publish_report write_if persist_validation_report persist_costs
      persist_for release release_for
  same_finish = refl

  same_after_first : after_first locked_by input ≡ after_first svc input
  unfolding after_first
  same_after_first = fun_ext λ refused. by_case refused
    where
      by_case :
          (refused : Bool) → after_first locked_by input refused ≡ after_first svc input refused
      by_case true = refl
      by_case false = rw (same_later_stages, same_finish)

  same_on_error : on_error locked_by input ≡ on_error svc input
  unfolding on_error end_stage_event publish_report write_if persist_validation_report fail_book
  same_on_error = refl

-- A run that resumes past the first stage never asks for the lock: whatever `acquire_lock` would do, the run
-- does the same.
pub resumed_never_locks :
    {W : Type 0} (svc : Services W) (input : PipelineInput) (other : String → Exec Exn W Bool)
    (s : Run W)
    → 0 < start_index input.resume_from
    → run_pipeline (record svc { acquire_lock = other }) input s ≡ run_pipeline svc input s
unfolding run_pipeline guarded body first_stage
resumed_never_locks svc input other s h = rw (skip (start_index input.resume_from) h) (
    rw (
      same_resolve_book svc input other,
      same_preflight svc input other,
      same_after_first svc input other,
      same_on_error svc input other,
    ))
  where
    skip : (n : ℕ) → 0 < n → leb n 0 ≡ false
    skip n p = ground arith
