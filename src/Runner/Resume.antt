-- ===== src/Runner/Resume.antt =====
-- Where `run_pipeline` of src/transpose/pipeline/runner.py starts, the book that it resumes with, and the
-- preflight.
use mathlib.Core.Option
use transpose.Prelude.{
  list_eq, ℕ, suc, String, Bool, true, false, not, ◌&&◌, Option, none, some, List, [], ◌∷◌, ltb,
  ◌==◌, if◌then◌else◌, length, str_eq,
}
use transpose.Text.{Text, codes, is_empty}
use transpose.Exec.{Exec, pure, raise, modify, when, attempt, ◌>>=◌}
use transpose.Runner.Types.{
  Stage, stage_order, stage_name, PipelineInput, value_error, runtime_error, other_error, Error,
  gate_error, exn, no_usage, Run,
}
use transpose.Runner.Services.{Services}
use transpose.Runner.Events.{lift}

-- `STAGE_ORDER.index(name)`; `none` is its `ValueError`.
stage_index : String → List Stage → Option ℕ
stage_index name [] = none
stage_index name (s ∷ stages) =
    let rest = Option.map suc (stage_index name stages) in
    if str_eq (stage_name s) name then some 0 else rest

-- An unknown stage is logged, and the run starts at the beginning.
unfoldable pub start_index : Option String → ℕ
unfolding stage_index
start_index none = 0
start_index (some name) = Option.get_or (stage_index name stage_order) 0

-- The part behind the last `/`, if there is a `/`.
behind_slash : Text → Option Text
behind_slash [] = none
behind_slash (c ∷ s) = elim (behind_slash s) [
  | some t ↦ some t
  | none ↦ if c == b'/' then some s else none
]

-- `….removesuffix(".pdf")`
drop_pdf : Text → Text
drop_pdf [] = []
drop_pdf (c ∷ s) = let rest = drop_pdf s in if list_eq (c ∷ s) (codes ".pdf") then [] else c ∷ rest

-- `str(lookup_url).rsplit("/", 1)[-1].removesuffix(".pdf")`
unfoldable pub blob_name : Text → Text
unfolding behind_slash drop_pdf list_eq
blob_name url = drop_pdf (Option.get_or (behind_slash url) url)

-- `a or b` of a text that may be missing
abbrev pub or_else : Option Text → Text → Text
or_else none b = b
or_else (some a) b = if is_empty a then b else a

module _ {W : Type 0} (svc : Services W) where
  -- `if len(blob_name) == 64: …`, then by the title `if not existing`.
  unfoldable pub by_title : Text → Option String → Exec Error (Run W) (Option String)
  by_title title (some id) = pure (some id)
  by_title title none = lift (svc.latest_book_titled title)

  unfoldable pub find_by_url : PipelineInput → Text → Exec Error (Run W) (Option String)
  find_by_url input name = do
    existing ← if length name == 64 then lift (svc.get_book_by_hash name) else pure none
    by_title input.title existing

  unfoldable pub by_source : PipelineInput → Bool → Exec Error (Run W) (Option String)
  by_source input true = do
    hash ← lift (svc.sha256_file input.source_path)
    lift (svc.get_book_by_hash hash)
  by_source input false = find_by_url input (blob_name (or_else input.blob_uri input.source_path))

  unfoldable pub find_existing : PipelineInput → Exec Error (Run W) (Option String)
  find_existing input = do
    local ←
        if is_empty input.source_path then pure false else lift (svc.path_exists input.source_path)
    by_source input local

  unfoldable pub resumed_with : Option String → Exec Error (Run W) (Unit {0})
  resumed_with none = raise (exn (value_error "Cannot resume: no book found for the given source."))
  resumed_with (some id) =
      modify (λ s. record s { book_id = some id; cost_tracker = some no_usage })

  -- Past the first stage, the book is looked up by the source.
  unfoldable pub resolve_book : PipelineInput → Exec Error (Run W) (Unit {0})
  resolve_book input =
      let source_or_blob =
        if is_empty input.source_path then or_else input.blob_uri [] else input.source_path in
      when (ltb 0 (start_index input.resume_from) && not (is_empty source_or_blob))
        (do existing ← find_existing input; resumed_with existing)

  -- `except RuntimeError: raise` and `except Exception: logger.warning(…)`
  unfoldable pub reraise_runtime : Error → Exec Error (Run W) (Unit {0})
  reraise_runtime (gate_error g) = pure tt
  reraise_runtime (exn (value_error m)) = pure tt
  reraise_runtime (exn (runtime_error m)) = raise (exn (runtime_error m))
  reraise_runtime (exn (other_error m)) = pure tt

  unfoldable pub preflight : Exec Error (Run W) (Unit {0})
  preflight =
      attempt
        (do
          passed ← lift svc.operational_readiness_gate
          when (not passed && svc.preflight_blocking)
              (raise (exn (runtime_error "Operational readiness"))))
        reraise_runtime
