-- ===== src/Runner/Events.antt =====
-- The stage events of src/transpose/observability/cost_events.py and the two closures of `run_pipeline` that
-- use them, the gate runner, and what each stage writes when it is done. Clocks and log lines are left out.
use mathlib.Core.Option
use transpose.Prelude.{◌-◌, String, Option, none, some, [], ◌∷◌, ◌++◌, if◌then◌else◌}
use transpose.Exec.{Outcome, ok, raised, Exec, pure, raise, gets, modify, attempt, ◌>>=◌, ◌>>◌}
use transpose.Gates.Types.{GateResult}
use transpose.Runner.Types.{
  Stage, stage_name, Exn, Error, gate_error, exn, Usage, no_usage, Run, book_text,
}
use transpose.Runner.Services.{Services}

-- A service call from the coroutine.
abbrev pub lift_outcome : {A : Type 0} → Outcome Exn A → Outcome Error A
lift_outcome (ok a) = ok a
lift_outcome (raised e) = raised (exn e)

unfoldable pub lift : {W A : Type 0} → Exec Exn W A → Exec Error (Run W) A
lift op s = let (o, w) = op s.world in (lift_outcome o, record s { world = w })

-- `snapshot_tracker`; the estimated cost, a float, is left out.
unfoldable pub snapshot_tracker : Option Usage → Usage
snapshot_tracker none = no_usage
snapshot_tracker (some u) = u

-- `delta`: `max(0, …)` of each difference is the difference that stops at 0.
unfoldable pub delta : Usage → Usage → Usage
delta before after = record {
  input_tokens = after.input_tokens - before.input_tokens;
  output_tokens = after.output_tokens - before.output_tokens;
  pages = after.pages - before.pages;
  blob_reads = after.blob_reads - before.blob_reads;
  blob_writes = after.blob_writes - before.blob_writes;
}

-- `stages_completed.append(…)`
unfoldable pub complete : {W : Type 0} → Stage → Exec Error (Run W) (Unit {0})
complete stage = modify (λ s. record s { stages_completed = s.stages_completed ++ stage ∷ [] })

-- `if cost_tracker: …`
unfoldable pub track : {W : Type 0} → (Usage → Usage) → Exec Error (Run W) (Unit {0})
track f = modify (λ s. record s { cost_tracker = Option.map f s.cost_tracker })

module _ {W : Type 0} (svc : Services W) where
  unfoldable pub record_stage_start : String → String → Exec Error (Run W) (Option String)
  unfolding lift
  record_stage_start book_id stage =
      if svc.is_uuid book_id
      then (do
        event_id ← lift svc.uuid4
        attempt (do lift (svc.insert_event event_id book_id stage); pure (some event_id))
            (λ _. pure none))
      else pure none

  unfoldable pub record_stage_end : Option String → String → Usage → Exec Error (Run W) (Unit {0})
  unfolding lift
  record_stage_end none status metrics = pure tt
  record_stage_end (some event_id) status metrics =
      attempt (lift (svc.update_event event_id status metrics)) (λ _. pure tt)

  -- `_begin_stage_event`
  unfoldable pub begin_for : Option String → Stage → Exec Error (Run W) (Unit {0})
  unfolding record_stage_start
  begin_for none stage = pure tt
  begin_for (some b) stage = do
    modify (λ s. record s { before = snapshot_tracker s.cost_tracker })
    event ← record_stage_start b (stage_name stage)
    modify (λ s. record s { active_event = event })

  unfoldable pub begin_stage_event : Stage → Exec Error (Run W) (Unit {0})
  unfolding begin_for
  begin_stage_event stage = do b ← gets (λ s. s.book_id); begin_for b stage

  -- `_end_stage_event`
  unfoldable pub end_for : Option String → String → Exec Error (Run W) (Unit {0})
  unfolding record_stage_end
  end_for none status = pure tt
  end_for (some event) status = do
    metrics ← gets (λ s. delta s.before (snapshot_tracker s.cost_tracker))
    record_stage_end (some event) status metrics
    modify (λ s. record s { active_event = none })

  unfoldable pub end_stage_event : String → Exec Error (Run W) (Unit {0})
  unfolding end_for
  end_stage_event status = do e ← gets (λ s. s.active_event); end_for e status

  -- `await ctx.state.set_pipeline_status(str(book_id), …)`
  unfoldable pub set_status : String → Exec Error (Run W) (Unit {0})
  unfolding lift
  set_status text = do b ← gets (λ s. book_text s.book_id); lift (svc.set_pipeline_status b text)

  -- How a stage ends: its status row, the list of stages, its event.
  unfoldable pub finish_stage : Stage → Exec Error (Run W) (Unit {0})
  unfolding set_status complete end_stage_event
  finish_stage stage = do set_status (stage_name stage); complete stage; end_stage_event "completed"

  -- `_run_gate`
  unfoldable pub run_gate : Exec Exn W GateResult → Exec Error (Run W) (Unit {0})
  unfolding lift
  run_gate gate = do
    result ← lift gate
    modify (λ s. record s { gate_results = s.gate_results ++ result ∷ [] })
    if result.passed then pure tt else raise (gate_error result)
