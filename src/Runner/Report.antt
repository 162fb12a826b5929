-- ===== src/Runner/Report.antt =====
-- `_build_validation_report` and `_persist_validation_report` of src/transpose/pipeline/runner.py.
use transpose.Prelude.{
  ℕ, String, Bool, true, ◌&&◌, Option, none, some, List, [], ◌∷◌, if◌then◌else◌, str_eq,
}
use transpose.Text.{Text}
use transpose.Exec.{Exec, pure, gets, attempt, ◌>>=◌, ◌>>◌}
use transpose.Gates.Types.{GateResult, ExportArtifact}
use transpose.Runner.Types.{PipelineInput, Error, Run}
use transpose.Runner.Services.{Report, Services}
use transpose.Runner.Events.{lift}

-- `all(g.passed for g in gate_results)`
unfoldable pub all_passed : List GateResult → Bool
all_passed [] = true
all_passed (g ∷ gs) = g.passed && all_passed gs

-- `artifact_map[a["format"]] = …` for each artifact: the last of a format stays.
unfoldable pub artifact_map : List ExportArtifact → String → Option ExportArtifact
artifact_map [] format = none
artifact_map (a ∷ rest) format = elim (artifact_map rest format) [
  | some later ↦ some later
  | none ↦ if str_eq a.format format then some a else none
]

unfoldable pub build_validation_report : {W : Type 0} → Run W → Report
unfolding all_passed artifact_map
build_validation_report s = record {
  book_id = s.book_id;
  gates = s.gate_results;
  overall = all_passed s.gate_results;
  artifacts = artifact_map s.artifacts;
}

module _ {W : Type 0} (svc : Services W) where
  -- `except Exception: logger.warning(…)`
  unfoldable pub persist_validation_report :
      Option String → Report → Option ℕ → Exec Error (Run W) (Unit {0})
  unfolding lift
  persist_validation_report none report score = pure tt
  persist_validation_report (some b) report score =
      if svc.is_uuid b
      then attempt
          (do
            lift svc.ensure_validation_reports_table
            lift (svc.save_validation_report b report score))
          (λ _. pure tt)
      else pure tt

  -- `if input.output_dir: … write_text(…)`
  unfoldable pub write_if : Option Text → Report → Exec Error (Run W) (Unit {0})
  unfolding lift
  write_if none report = pure tt
  write_if (some dir) report = lift (svc.write_report dir report)

  -- The report of the gates so far, to the output directory and to the database.
  unfoldable pub publish_report : PipelineInput → Option ℕ → Exec Error (Run W) (Unit {0})
  unfolding write_if build_validation_report persist_validation_report
  publish_report input score = do
    report ← gets build_validation_report
    write_if input.output_dir report
    b ← gets (λ s. s.book_id)
    persist_validation_report b report score
