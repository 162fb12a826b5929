-- ===== src/Runner/Walk.antt =====
-- How a stage of `run_pipeline` moves the list of completed stages, and how stages follow one another.
use transpose.Prelude.{
  ◌≡◌, refl, sym, ap, ◌∙◌, Bool, true, false, ◌&&◌, List, [], ◌∷◌, ◌++◌, append-nil, append_assoc,
  arith, if◌then◌else◌,
}
use transpose.Exec.{resume, Outcome, ok, raised, Exec, pure, raise, modify, when, ◌>>=◌, ◌>>◌}
use transpose.Exec.Triple.{Ends, Triple, Triple-weaken, Triple-bind}
use transpose.Gates.Types.{GateResult}
use transpose.Runner.Types.{Stage, stage_name, Exn, Error, gate_error, Run}
use transpose.Runner.Services.{Services}
use transpose.Runner.Report.{all_passed}
use transpose.Runner.Calm.{
  At, Failed, Quiet, Calm-Quiet, Calm-pure, Calm-set_status, Calm-end_stage_event,
}
use transpose.Runner.Events.{lift_outcome, lift, complete, finish_stage, run_gate}

all_passed-append :
    (gs : List GateResult) (g : GateResult)
    → all_passed (gs ++ g ∷ []) ≡ (all_passed gs && g.passed)
unfolding all_passed
all_passed-append [] g = ground arith
all_passed-append (h ∷ gs) g = ground (arith, all_passed-append gs g)

module _ {W : Type 0} (svc : Services W) (c : List Stage) where
  judged :
      (verdict : Bool) (s : Run W) (g : GateResult)
      → g.passed ≡ verdict
      → At c s
      → Ends
          (λ _. At c)
          (Failed c)
          ((if verdict then pure {E = Error} tt else raise (gate_error g))
            (record s { gate_results = s.gate_results ++ g ∷ [] }))
  judged true s g good h = (h.0, ground (arith, all_passed-append s.gate_results g))
  judged false s g bad h = (h.0, (s.gate_results, refl, h.1, bad))

  gate_lands :
      (o : Outcome Exn GateResult) (s : Run W)
      → At c s
      → Ends
          (λ _. At c)
          (Failed c)
          (resume
            (lift_outcome o, s)
            (λ result.
              modify (λ s. record s { gate_results = s.gate_results ++ result ∷ [] })
              >> (if result.passed then pure tt else raise (gate_error result))))
  unfolding ◌>>=◌
  gate_lands (ok g) s h = judged g.passed s g refl h
  gate_lands (raised x) s h = h

  pub Quiet-run_gate : (gate : Exec Exn W GateResult) → Quiet c (run_gate svc gate)
  unfolding run_gate lift ◌>>=◌
  Quiet-run_gate gate = record {
    at = λ s h.
        unfold ◌>>=◌ in gate_lands (gate s.world).0 (record s { world = (gate s.world).1 }) h;
  }

module _ {W : Type 0} {c : List Stage} where
  pub Quiet-bind :
      {A B : Type 0} {m : Exec Error (Run W) A} {f : A → Exec Error (Run W) B}
      → Quiet c m
      → ((a : A) → Quiet c (f a))
      → Quiet c (m >>= f)
  Quiet-bind = Triple-bind

  pub Quiet-when : (b : Bool) {m : Exec Error (Run W) (Unit {0})} → Quiet c m → Quiet c (when b m)
  Quiet-when true t = t
  Quiet-when false t = Calm-Quiet (Calm-pure tt)

-- What stands when a part that completes the stages `q` after `c` has failed: some first stages of `q` are
-- complete.
abbrev pub Halted : {W : Type 0} → List Stage → List Stage → Error → Run W → Type 0
Halted c q e s =
    (done : List Stage) × (left : List Stage) × (done ++ left ≡ q) × Failed (c ++ done) e s

-- `m` completes the stages `q`, whatever was complete before.
abbrev pub Walk : {W : Type 0} → List Stage → List Stage → Exec Error (Run W) (Unit {0}) → Type 0
Walk c q m = Triple (At c) m (λ _. At (c ++ q)) (Halted c q)

module _ {W : Type 0} (c : List Stage) where
  pub none_done : (q : List Stage) (e : Error) (s : Run W) → Failed c e s → Halted c q e s
  none_done q e s h = ([], q, refl, rw append-nil h)

  pub all_done : (q : List Stage) (e : Error) (s : Run W) → Failed (c ++ q) e s → Halted c q e s
  all_done q e s h = (q, [], append-nil q, h)

  -- A part before the stage is complete, and one after it.
  pub Walk-after :
      (q : List Stage) {A : Type 0} {m : Exec Error (Run W) A}
      {f : A → Exec Error (Run W) (Unit {0})}
      → Quiet c m
      → ((a : A) → Walk c q (f a))
      → Walk c q (m >>= f)
  Walk-after q t u = Triple-bind (Triple-weaken t (λ s h. h) (λ a s h. h) (none_done q)) u

  pub Walk-before :
      (q : List Stage) {m n : Exec Error (Run W) (Unit {0})}
      → Walk c q m
      → Quiet (c ++ q) n
      → Walk c q (m >> n)
  Walk-before q t u = Triple-bind t (λ _. Triple-weaken u (λ s h. h) (λ a s h. h) (all_done q))

  pub Walk-when :
      (b : Bool) (q : List Stage) {m : Exec Error (Run W) (Unit {0})}
      → Walk c q m
      → Walk c (if b then q else []) (when b m)
  Walk-when true q t = t
  Walk-when false q t = record { at = λ s h. (h.0 ∙ sym (append-nil c), h.1) }

  pub Walk-complete : (k : Stage) → Walk {W = W} c (k ∷ []) (complete k)
  unfolding complete
  Walk-complete k = record { at = λ s h. (ap (λ l. l ++ k ∷ []) h.0, h.1) }

module _ {W : Type 0} (c p q : List Stage) where
  pub Halted-later : (e : Error) (s : Run W) → Halted (c ++ p) q e s → Halted c (p ++ q) e s
  Halted-later e s (done, left, split, f) = (
    p ++ done,
    left,
    append_assoc p done left ∙ ap (λ l. p ++ l) split,
    (f.0 ∙ append_assoc c p done, f.1),
  )

  pub Halted-now : (e : Error) (s : Run W) → Halted c p e s → Halted c (p ++ q) e s
  Halted-now e s (done, left, split, f) =
      (done, left ++ q, sym (append_assoc done left q) ∙ ap (λ l. l ++ q) split, f)

  -- One after the other.
  pub Walk-then :
      {m n : Exec Error (Run W) (Unit {0})}
      → Walk c p m
      → Walk (c ++ p) q n
      → Walk c (p ++ q) (m >> n)
  Walk-then t u =
      Triple-bind (Triple-weaken t (λ s h. h) (λ a s h. h) Halted-now)
        (λ _. Triple-weaken u (λ s h. h) (λ a s h. (h.0 ∙ append_assoc c p q, h.1)) Halted-later)

pub Walk-finish_stage :
    {W : Type 0} (svc : Services W) (c : List Stage) (k : Stage)
    → Walk c (k ∷ []) (finish_stage svc k)
unfolding finish_stage
Walk-finish_stage svc c k =
    Walk-after c (k ∷ []) (Calm-Quiet (Calm-set_status svc c (stage_name k))) (λ _.
      Walk-before c (k ∷ []) (Walk-complete c k)
        (Calm-Quiet (Calm-end_stage_event svc (c ++ k ∷ []) "completed")))
