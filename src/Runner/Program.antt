-- ===== src/Runner/Program.antt =====
-- `run_pipeline` of src/transpose/pipeline/runner.py: the stages in order, the end of a run that passes them
-- all, and the two exception handlers, which differ in what `ErrorEntry` reads from the exception only.
use transpose.Prelude.{
  ℕ, String, Bool, true, false, ◌||◌, Option, none, some, List, [], ◌∷◌, ◌++◌, leb, if◌then◌else◌,
  str_eq,
}
use transpose.Exec.{Exec, pure, raise, gets, modify, when, attempt, ◌>>=◌, ◌>>◌}
use transpose.Runner.Types.{
  Stage, ingest, ocr, chunk, translate, glossary, assemble, export, audiobook, workspace, index,
  processing, exported, failed, PipelineInput, other_error, Error, exn, Usage, Run, PipelineOutput,
}
use transpose.Runner.Services.{Services}
use transpose.Runner.Events.{lift, end_stage_event}
use transpose.Runner.Report.{publish_report}
use transpose.Runner.Resume.{start_index, resolve_book, preflight}
use transpose.Runner.Stages.{
  stage_ingest, stage_ocr, stage_chunk, stage_translate, stage_glossary, stage_assemble,
  stage_export, stage_audiobook, stage_workspace,
}

abbrev pub last? : List Stage → Option Stage
last? [] = none
last? (s ∷ []) = some s
last? (s ∷ t ∷ rest) = last? (t ∷ rest)

-- `if "audiobook" in input.output_formats`
unfoldable pub wants : String → List String → Bool
wants format [] = false
wants format (f ∷ fs) = str_eq f format || wants format fs

module _ {W : Type 0} (svc : Services W) where
  -- `if start_index <= STAGE_ORDER.index(stage)`
  abbrev pub from :
      PipelineInput → Stage → Exec Error (Run W) (Unit {0}) → Exec Error (Run W) (Unit {0})
  from input stage m = when (leb (start_index input.resume_from) (index stage)) m

  unfoldable pub first_stage : PipelineInput → Exec Error (Run W) Bool
  first_stage input =
      if leb (start_index input.resume_from) (index ingest)
      then stage_ingest svc input
      else pure false

  unfoldable pub later_stages : PipelineInput → Exec Error (Run W) (Unit {0})
  later_stages input = do
    from input ocr (stage_ocr svc input)
    from input chunk (stage_chunk svc input)
    from input translate (stage_translate svc input)
    from input glossary (stage_glossary svc)
    from input assemble (stage_assemble svc)
    from input export (stage_export svc input)
    from input audiobook (when (wants "audiobook" input.output_formats) (stage_audiobook svc))
    from input workspace (stage_workspace svc input)

  -- The quality judge: no failure of it matters.
  unfoldable pub judge_for : Option String → Exec Error (Run W) (Option ℕ)
  judge_for none = pure none
  judge_for (some b) =
      if svc.has_anthropic_key
      then attempt (lift (svc.judge_translation_quality b)) (λ _. pure none)
      else pure none

  unfoldable pub oracle : Exec Error (Run W) (Option ℕ)
  oracle = do b ← gets (λ s. s.book_id); judge_for b

  unfoldable pub persist_for : Option Usage → Exec Error (Run W) (Unit {0})
  persist_for none = pure tt
  persist_for (some u) =
      attempt (do lift svc.ensure_book_costs_table; lift (svc.persist_costs u)) (λ _. pure tt)

  unfoldable pub persist_costs : Exec Error (Run W) (Unit {0})
  persist_costs = do t ← gets (λ s. s.cost_tracker); persist_for t

  unfoldable pub release_for : Option String → Exec Error (Run W) (Unit {0})
  release_for none = pure tt
  release_for (some b) = lift (svc.release_lock b)

  -- `if book_id: await ctx.state.release_lock(str(book_id))`
  unfoldable pub release : Exec Error (Run W) (Unit {0})
  release = do b ← gets (λ s. s.book_id); release_for b

  unfoldable pub finish : PipelineInput → Exec Error (Run W) (Unit {0})
  finish input = do score ← oracle; publish_report svc input score; persist_costs; release

  unfoldable pub after_first : PipelineInput → Bool → Exec Error (Run W) Bool
  after_first input true = pure true
  after_first input false = do later_stages input; finish input; pure false

  -- The body of the `try`; `true` is the early return of a run that is refused the lock.
  unfoldable pub body : PipelineInput → Exec Error (Run W) Bool
  body input = do refused ← first_stage input; after_first input refused

  unfoldable pub fail_book : Option String → Exec Error (Run W) (Unit {0})
  fail_book none = pure tt
  fail_book (some b) = do lift (svc.update_book_status b failed); lift (svc.release_lock b)

  -- `except QualityGateError` and `except Exception`, up to `raise`.
  unfoldable pub on_error : PipelineInput → Error → Exec Error (Run W) Bool
  on_error input e = do
    end_stage_event svc "failed"
    modify (λ s. record s {
      errors = s.errors ++ record { stage = last? s.stages_completed; error = e } ∷ [];
    })
    publish_report svc input none
    b ← gets (λ s. s.book_id)
    fail_book b
    raise e

  -- The `try` with its handlers. An `Error` is an `Exception`: `CancelledError` and `KeyboardInterrupt`, which
  -- `except Exception` lets through, are not modelled.
  unfoldable pub guarded : PipelineInput → Exec Error (Run W) Bool
  guarded input = attempt (body input) (on_error input)

-- What the caller gets: of a run that was refused the lock, and of one that went through.
abbrev pub output : {W : Type 0} → Bool → Run W → PipelineOutput
output true s = record {
  book_id = s.book_id;
  status = processing;
  artifacts = [];
  glossary_term_count = 0;
  total_tokens_used = 0;
  stages_completed = s.stages_completed;
  errors = record { stage = some ingest; error = exn (other_error "LockConflict") } ∷ [];
  gate_results = [];
  cost_summary = none;
  landing_page_url = none;
}
output false s = record {
  book_id = s.book_id;
  status = exported;
  artifacts = s.artifacts;
  glossary_term_count = s.glossary_term_count;
  total_tokens_used = s.total_tokens;
  stages_completed = s.stages_completed;
  errors = s.errors;
  gate_results = s.gate_results;
  cost_summary = s.cost_tracker;
  landing_page_url = s.landing_page_url;
}

module _ {W : Type 0} (svc : Services W) where
  unfoldable pub run_pipeline : PipelineInput → Exec Error (Run W) PipelineOutput
  run_pipeline input = do
    resolve_book svc input
    preflight svc
    refused ← guarded svc input
    gets (output refused)
