-- ===== src/Runner/Calm.antt =====
-- What the parts of a stage leave alone: `At c` says which stages are complete and that every gate so far
-- passed. A calm part keeps that and raises no gate error; a quiet part may also fail at a gate.
use transpose.Prelude.{
  ◌≡◌, refl, ap, ◌∙◌, String, Bool, true, false, Option, none, some, List, [], ◌∷◌, ◌++◌,
  if◌then◌else◌,
}
use transpose.Exec.{Outcome, ok, raised, Exec, pure, raise, gets, modify, when, attempt, ◌>>=◌}
use transpose.Exec.Triple.{Ends, Triple, Triple-weaken, Triple-bind, Triple-attempt}
use transpose.Gates.Types.{GateResult}
use transpose.Runner.Types.{Stage, stage_name, Exn, Error, gate_error, exn, Usage, Run}
use transpose.Runner.Services.{Services}
use transpose.Runner.Report.{all_passed}
use transpose.Runner.Events.{
  lift_outcome, begin_for, end_for, lift, record_stage_start, record_stage_end, begin_stage_event,
  end_stage_event, set_status, track,
}

abbrev pub At : {W : Type 0} → List Stage → Run W → Type 0
At c s = (s.stages_completed ≡ c) × (all_passed s.gate_results ≡ true)

-- The results that stand when a gate has stopped the run: all before the last passed, and the last did not.
abbrev pub StoppedBy : GateResult → List GateResult → Type 0
StoppedBy g results =
    (before : List GateResult) × (results ≡ before ++ g ∷ [])
    × (all_passed before ≡ true)
    × (g.passed ≡ false)

abbrev pub Blames : Error → List GateResult → Type 0
Blames (gate_error g) results = StoppedBy g results
Blames (exn x) results = all_passed results ≡ true

abbrev pub IsExn : Error → Type 0
IsExn (gate_error g) = ⊥
IsExn (exn x) = Unit {0}

abbrev pub Calm : {W A : Type 0} → List Stage → Exec Error (Run W) A → Type 0
Calm c m = Triple (At c) m (λ _. At c) (λ e s. IsExn e × At c s)

abbrev pub Failed : {W : Type 0} → List Stage → Error → Run W → Type 0
Failed c e s = (s.stages_completed ≡ c) × Blames e s.gate_results

abbrev pub Quiet : {W A : Type 0} → List Stage → Exec Error (Run W) A → Type 0
Quiet c m = Triple (At c) m (λ _. At c) (Failed c)

module _ {W : Type 0} {c : List Stage} where
  calm_failure : (e : Error) (s : Run W) → IsExn e × At c s → Failed c e s
  calm_failure (gate_error g) s h = absurd h.0
  calm_failure (exn x) s h = h.1

  pub Calm-Quiet : {A : Type 0} {m : Exec Error (Run W) A} → Calm c m → Quiet c m
  Calm-Quiet t = Triple-weaken t (λ s h. h) (λ a s h. h) calm_failure

  pub Calm-pure : {A : Type 0} (a : A) → Calm {W = W} c (pure a)
  Calm-pure a = record { at = λ s h. h }

  pub Calm-gets : {A : Type 0} (f : Run W → A) → Calm c (gets f)
  Calm-gets f = record { at = λ s h. h }

  pub Calm-raise : {A : Type 0} (x : Exn) → Calm {W = W} {A = A} c (raise (exn x))
  Calm-raise x = record { at = λ s h. (tt, h) }

  pub Calm-bind :
      {A B : Type 0} {m : Exec Error (Run W) A} {f : A → Exec Error (Run W) B}
      → Calm c m
      → ((a : A) → Calm c (f a))
      → Calm c (m >>= f)
  Calm-bind = Triple-bind

  pub Calm-when : (b : Bool) {m : Exec Error (Run W) (Unit {0})} → Calm c m → Calm c (when b m)
  Calm-when true t = t
  Calm-when false t = Calm-pure tt

  pub Calm-if :
      (b : Bool) {A : Type 0} {m n : Exec Error (Run W) A}
      → Calm c m
      → Calm c n
      → Calm c (if b then m else n)
  Calm-if true t u = t
  Calm-if false t u = u

  -- An assignment to the other variables.
  pub Calm-modify :
      (f : Run W → Run W)
      → ((s : Run W)
          → ((f s).stages_completed ≡ s.stages_completed) × ((f s).gate_results ≡ s.gate_results))
      → Calm c (modify f)
  Calm-modify f same = record { at = λ s h. ((same s).0 ∙ h.0, ap all_passed (same s).1 ∙ h.1) }

  handler-Calm :
      {A : Type 0} (h : Error → Exec Error (Run W) A)
      → ((e : Error) → Calm c (h e))
      → (e : Error) → Triple (λ s. IsExn e × At c s) (h e) (λ _. At c) (λ e' s. IsExn e' × At c s)
  handler-Calm h t e = Triple-weaken (t e) (λ s p. p.1) (λ a s p. p) (λ e' s p. p)

  pub Calm-attempt :
      {A : Type 0} {m : Exec Error (Run W) A} {h : Error → Exec Error (Run W) A}
      → Calm c m
      → ((e : Error) → Calm c (h e))
      → Calm c (attempt m h)
  Calm-attempt {h} t u = Triple-attempt t (handler-Calm h u)

  lifted :
      {A : Type 0} (o : Outcome Exn A) (s : Run W)
      → At c s
      → Ends (λ _. At c) (λ e s. IsExn e × At c s) (lift_outcome o, s)
  lifted (ok a) s h = h
  lifted (raised x) s h = (tt, h)

  pub Calm-lift : {A : Type 0} (op : Exec Exn W A) → Calm c (lift op)
  unfolding lift
  Calm-lift op = record {
    at = λ s h. lifted (op s.world).0 (record s { world = (op s.world).1 }) h;
  }

  pub Calm-track : (f : Usage → Usage) → Calm {W = W} c (track f)
  unfolding track
  Calm-track f = record { at = λ s h. h }

pub ruleset calm_rules = (
  Calm-pure, Calm-gets, Calm-raise, Calm-bind, Calm-when, Calm-if, Calm-attempt, Calm-lift,
  Calm-track,
)

module _ {W : Type 0} (svc : Services W) (c : List Stage) where
  Calm-record_stage_start : (b stage : String) → Calm c (record_stage_start svc b stage)
  unfolding record_stage_start
  Calm-record_stage_start b stage = search calm_rules

  Calm-record_stage_end :
      (e : Option String) (status : String) (u : Usage) → Calm c (record_stage_end svc e status u)
  unfolding record_stage_end
  Calm-record_stage_end none status u = search calm_rules
  Calm-record_stage_end (some e) status u = search calm_rules

  Calm-begin_for : (b : Option String) (stage : Stage) → Calm c (begin_for svc b stage)
  unfolding begin_for
  Calm-begin_for none stage = search calm_rules
  Calm-begin_for (some b) stage = Calm-bind (Calm-modify _ (λ s. (refl, refl))) (λ _.
      Calm-bind (Calm-record_stage_start b (stage_name stage))
        (λ _. Calm-modify _ (λ s. (refl, refl))))

  pub Calm-begin_stage_event : (stage : Stage) → Calm c (begin_stage_event svc stage)
  unfolding begin_stage_event
  Calm-begin_stage_event stage = search (calm_rules, Calm-begin_for)

  Calm-end_for : (e : Option String) (status : String) → Calm c (end_for svc e status)
  unfolding end_for
  Calm-end_for none status = search calm_rules
  Calm-end_for (some e) status = Calm-bind (Calm-gets _) (λ u.
      Calm-bind (Calm-record_stage_end (some e) status u) (λ _. Calm-modify _ (λ s. (refl, refl))))

  pub Calm-end_stage_event : (status : String) → Calm c (end_stage_event svc status)
  unfolding end_stage_event
  Calm-end_stage_event status = search (calm_rules, Calm-end_for)

  pub Calm-set_status : (text : String) → Calm c (set_status svc text)
  unfolding set_status
  Calm-set_status text = search calm_rules
