-- ===== src/Runner/Handler.antt =====
-- The exception handlers of `run_pipeline` keep the stages and the gate results, and raise what they caught.
use transpose.Prelude.{
  ℕ, ◌≡◌, refl, String, Bool, true, false, Option, none, some, List, if◌then◌else◌,
}
use transpose.Text.{Text}
use transpose.Exec.{Outcome, ok, raised, Exec, pure, gets, attempt, ◌>>=◌}
use transpose.Exec.Triple.{Triple, Triple-weaken, Triple-bind, Triple-attempt, Keeps, Keeps-bind}
use transpose.Gates.Types.{GateResult}
use transpose.Runner.Types.{Stage, BookStatus, failed, PipelineInput, Exn, Error, Run}
use transpose.Runner.Services.{Report, Services}
use transpose.Runner.Report.{write_if, publish_report, persist_validation_report}
use transpose.Runner.Program.{fail_book, on_error}
use transpose.Exec.Triple.{Ends}
use transpose.Runner.Events.{end_for, lift_outcome, lift, record_stage_end, end_stage_event}

-- What the handlers call outside of a `try` of their own does not raise.
pub record IsReliable {W : Type 0} (svc : Services W) : Type 0 where
  pub writes : (dir : Text) (r : Report) (w : W) → (svc.write_report dir r w).0 ≡ ok tt
  pub updates : (b : String) (t : BookStatus) (w : W) → (svc.update_book_status b t w).0 ≡ ok tt
  pub releases : (b : String) (w : W) → (svc.release_lock b w).0 ≡ ok tt

abbrev pub Frozen : {W : Type 0} → List Stage → List GateResult → Run W → Type 0
Frozen c g s = (s.stages_completed ≡ c) × (s.gate_results ≡ g)

abbrev pub Sure : {W A : Type 0} → List Stage → List GateResult → Exec Error (Run W) A → Type 0
Sure c g m = Triple (Frozen c g) m (λ _. Frozen c g) (λ _ _. ⊥)

module _ {W : Type 0} (c : List Stage) (g : List GateResult) where
  lift-Frozen :
      {A : Type 0} (o : Outcome Exn A) (s : Run W)
      → Frozen c g s
      → Ends (λ _. Frozen c g) (λ _. Frozen c g) (lift_outcome o, s)
  lift-Frozen (ok a) s h = h
  lift-Frozen (raised x) s h = h

  Keeps-lift : {A : Type 0} (op : Exec Exn W A) → Keeps (Frozen c g) (lift op)
  unfolding lift
  Keeps-lift op = record {
    at = λ s h. lift-Frozen (op s.world).0 (record s { world = (op s.world).1 }) h;
  }

  lift_sure :
      (o : Outcome Exn (Unit {0})) (s : Run W)
      → o ≡ ok tt
      → Frozen c g s
      → Ends (λ _. Frozen c g) (λ _ _. ⊥) (lift_outcome o, s)
  lift_sure (ok a) s e h = h
  lift_sure (raised x) s e h = cc

  Sure-lift : (op : Exec Exn W (Unit {0})) → ((w : W) → (op w).0 ≡ ok tt) → Sure c g (lift op)
  unfolding lift
  Sure-lift op h = record {
    at = λ s p. lift_sure (op s.world).0 (record s { world = (op s.world).1 }) (h s.world) p;
  }

  Sure-pure : {A : Type 0} (a : A) → Sure {W = W} c g (pure a)
  Sure-pure a = record { at = λ s h. h }

  Sure-gets : {A : Type 0} (f : Run W → A) → Sure c g (gets f)
  Sure-gets f = record { at = λ s h. h }

  Sure-attempt :
      {A : Type 0} {m : Exec Error (Run W) A} (a : A)
      → Keeps (Frozen c g) m
      → Sure c g (attempt m (λ _. pure a))
  Sure-attempt a t = Triple-attempt t λ e. Sure-pure a

  Sure-if :
      (b : Bool) {A : Type 0} {m n : Exec Error (Run W) A}
      → Sure c g m
      → Sure c g n
      → Sure c g (if b then m else n)
  Sure-if true t u = t
  Sure-if false t u = u

module _ {W : Type 0} (svc : Services W) (c : List Stage) (g : List GateResult) where
  Sure-end_for : (e : Option String) (status : String) → Sure c g (end_for svc e status)
  unfolding end_for record_stage_end
  Sure-end_for none status = Sure-pure c g tt
  Sure-end_for (some e) status =
      Triple-bind (Sure-gets c g _)
        λ u. Triple-bind (Sure-attempt c g tt (Keeps-lift c g _)) λ _. record { at = λ s h. h }

  pub Sure-end_stage_event : (status : String) → Sure c g (end_stage_event svc status)
  unfolding end_stage_event
  Sure-end_stage_event status = Triple-bind (Sure-gets c g _) λ e. Sure-end_for e status

  Sure-persist_validation_report :
      (b : Option String) (r : Report) (o : Option ℕ)
      → Sure c g (persist_validation_report svc b r o)
  unfolding persist_validation_report
  Sure-persist_validation_report none r o = Sure-pure c g tt
  Sure-persist_validation_report (some b) r o =
      Sure-if c g _ (Sure-attempt c g tt (Keeps-bind (Keeps-lift c g _) λ _. Keeps-lift c g _))
        (Sure-pure c g tt)

  module _ (reliable : IsReliable svc) where
    Sure-write_if : (dir : Option Text) (r : Report) → Sure c g (write_if svc dir r)
    unfolding write_if
    Sure-write_if none r = Sure-pure c g tt
    Sure-write_if (some dir) r = Sure-lift c g _ (reliable.writes dir r)

    pub Sure-publish_report :
        (input : PipelineInput) (o : Option ℕ) → Sure c g (publish_report svc input o)
    unfolding publish_report
    Sure-publish_report input o = Triple-bind (Sure-gets c g _) λ r.
        Triple-bind (Sure-write_if input.output_dir r)
          λ _. Triple-bind (Sure-gets c g _) λ b. Sure-persist_validation_report b r o

    Sure-fail_book : (b : Option String) → Sure c g (fail_book svc b)
    unfolding fail_book
    Sure-fail_book none = Sure-pure c g tt
    Sure-fail_book (some b) =
        Triple-bind (Sure-lift c g _ (reliable.updates b failed))
          λ _. Sure-lift c g _ (reliable.releases b)

    -- With services that answer, the handler raises the exception that it got, and keeps what was done.
    pub on_error_lem :
        (input : PipelineInput) (e : Error)
        → Triple (Frozen c g) (on_error svc input e) (λ _ _. ⊥) (λ e' s. (e' ≡ e) × Frozen c g s)
    unfolding on_error
    on_error_lem input e = surely (Sure-end_stage_event "failed") λ _.
        surely (record { at = λ s h. h })
          λ _. surely (Sure-publish_report input none) λ _.
            surely (Sure-gets c g _)
              λ b. surely (Sure-fail_book b) λ _. record { at = λ s h. (refl, h) }
      where
        surely :
            {A : Type 0} {m : Exec Error (Run W) A} {f : A → Exec Error (Run W) Bool}
            → Sure c g m
            → ((a : A) → Triple (Frozen c g) (f a) (λ _ _. ⊥) (λ e' s. (e' ≡ e) × Frozen c g s))
            → Triple (Frozen c g) (m >>= f) (λ _ _. ⊥) (λ e' s. (e' ≡ e) × Frozen c g s)
        surely t u = Triple-bind (Triple-weaken t (λ s h. h) (λ a s h. h) (λ e' s h. absurd h)) u
