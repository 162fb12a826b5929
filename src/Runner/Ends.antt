-- ===== src/Runner/Ends.antt =====
-- How a whole run of `run_pipeline` ends.
use transpose.Prelude.{
  ℕ, ◌⊎◌, ◌≡◌, refl, ◌∙◌, String, Bool, true, false, Option, none, some, List, [], ◌∷◌, ◌++◌,
}
use transpose.Text.{Text}
use transpose.Exec.{Exec, ◌>>=◌}
use transpose.Exec.Triple.{Ends-weaken, Triple, Triple-weaken, Triple-bind, Triple-attempt}
use transpose.Runner.Types.{
  Stage, ingest, ocr, chunk, translate, glossary, assemble, export, audiobook, workspace,
  stage_order, processing, exported, PipelineInput, value_error, runtime_error, other_error, Error,
  gate_error, exn, Usage, Run, start, PipelineOutput,
}
use transpose.Runner.Services.{Report, Services}
use transpose.Runner.Report.{all_passed, write_if, publish_report, persist_validation_report}
use transpose.Runner.Resume.{
  find_by_url, by_title, by_source, find_existing, resumed_with, resolve_book, reraise_runtime,
  preflight,
}
use transpose.Runner.Program.{
  judge_for, oracle, persist_for, persist_costs, release_for, release, finish, after_first, body,
  on_error, guarded, output, run_pipeline, later_stages,
}
use transpose.Exec.Triple.{Ends}
use transpose.Runner.Calm.{
  At, Calm, Calm-Quiet, Calm-pure, Calm-gets, Calm-lift, Calm-raise, Calm-bind, Calm-when, Calm-if,
  Calm-attempt, Calm-modify,
}
use transpose.Runner.Walk.{Halted, Halted-later, Halted-now, all_done, none_done, Walk}
use transpose.Runner.Order.{
  asks_for, plan_of, plan_of-ingest, Admitted, first_stage_lem, later_stages_lem,
}
use transpose.Runner.Handler.{IsReliable, on_error_lem}
use transpose.Runner.Locked.{
  Any, before, WasRefused, WasGranted, IsAnswered, Triple-first_stage, Triple-and,
}
use mathlib.Core.Path.{subst}

abbrev later : List Stage
later = ocr ∷ chunk ∷ translate ∷ glossary ∷ assemble ∷ export ∷ audiobook ∷ workspace ∷ []

module _ {W : Type 0} (svc : Services W) (input : PipelineInput) where
  Calm-judge_for : (c : List Stage) (b : Option String) → Calm c (judge_for svc b)
  unfolding judge_for
  Calm-judge_for c none = Calm-pure none
  Calm-judge_for c (some b) =
      Calm-if _ (Calm-attempt (Calm-lift _) λ e. Calm-pure none) (Calm-pure none)

  Calm-write_if : (c : List Stage) (dir : Option Text) (r : Report) → Calm c (write_if svc dir r)
  unfolding write_if
  Calm-write_if c none r = Calm-pure tt
  Calm-write_if c (some dir) r = Calm-lift _

  Calm-persist_report :
      (c : List Stage) (b : Option String) (r : Report) (o : Option ℕ)
      → Calm c (persist_validation_report svc b r o)
  unfolding persist_validation_report
  Calm-persist_report c none r o = Calm-pure tt
  Calm-persist_report c (some b) r o =
      Calm-if _ (Calm-attempt (Calm-bind (Calm-lift _) λ _. Calm-lift _) λ e. Calm-pure tt)
        (Calm-pure tt)

  Calm-publish_report : (c : List Stage) (o : Option ℕ) → Calm c (publish_report svc input o)
  unfolding publish_report
  Calm-publish_report c o = Calm-bind (Calm-gets _) λ r.
      Calm-bind (Calm-write_if c input.output_dir r)
        λ _. Calm-bind (Calm-gets _) λ b. Calm-persist_report c b r o

  Calm-persist_for : (c : List Stage) (u : Option Usage) → Calm c (persist_for svc u)
  unfolding persist_for
  Calm-persist_for c none = Calm-pure tt
  Calm-persist_for c (some u) =
      Calm-attempt (Calm-bind (Calm-lift _) λ _. Calm-lift _) λ e. Calm-pure tt

  Calm-release_for : (c : List Stage) (b : Option String) → Calm c (release_for svc b)
  unfolding release_for
  Calm-release_for c none = Calm-pure tt
  Calm-release_for c (some b) = Calm-lift _

  Calm-finish : (c : List Stage) → Calm c (finish svc input)
  unfolding finish oracle persist_costs release
  Calm-finish c = Calm-bind (Calm-bind (Calm-gets _) (Calm-judge_for c)) λ score.
      Calm-bind (Calm-publish_report c score) λ _.
        Calm-bind (Calm-bind (Calm-gets _) (Calm-persist_for c))
          λ _. Calm-bind (Calm-gets _) (Calm-release_for c)

  -- The later stages and the end of the run, after the stages `p`.
  whole :
      (p q : List Stage)
      → Walk p q (later_stages svc input)
      → Triple (At p) (after_first svc input false) (Admitted (p ++ q)) (Halted [] (p ++ q))
  unfolding after_first
  whole p q t = Triple-bind (Triple-weaken t (λ s h. h) (λ a s h. h) (Halted-later [] p q)) λ _.
      Triple-bind
        (Triple-weaken (Calm-Quiet (Calm-finish (p ++ q))) (λ s h. h) (λ a s h. h)
          (all_done [] (p ++ q)))
        λ _. record { at = λ s h. h }

  after_first_lem :
      (refused : Bool)
      → Triple
          (Admitted (plan_of input (ingest ∷ [])) refused)
          (after_first svc input refused)
          (Admitted (plan_of input stage_order))
          (Halted [] (plan_of input stage_order))
  after_first_lem true = unfold after_first in record { at = λ s h. h }
  after_first_lem false =
      subst
        (λ l.
          Triple (At (plan_of input (ingest ∷ []))) (after_first svc input false) (Admitted l)
            (Halted [] l))
        (plan_of-ingest input later)
        (whole _ _ (later_stages_lem svc input (plan_of input (ingest ∷ []))))

  body_lem :
      Triple
        (At [])
        (body svc input)
        (Admitted (plan_of input stage_order))
        (Halted [] (plan_of input stage_order))
  unfolding body
  body_lem =
      Triple-bind
        (Triple-weaken (first_stage_lem svc input) (λ s h. h) (λ a s h. h)
          (λ e s h.
            subst (λ l. Halted [] l e s) (plan_of-ingest input later) (Halted-now [] _ _ e s h)))
        after_first_lem

  module _ (reliable : IsReliable svc) where
    still :
        (c : List Stage) (e : Error) (s : Run W)
        → Halted [] c e s
        → (e' : Error) (s' : Run W)
        → (e' ≡ e)
          × ((s'.stages_completed ≡ s.stages_completed) × (s'.gate_results ≡ s.gate_results))
        → Halted [] c e' s'
    still c e s (done, left, split, (stages, blame)) e' s' (same, (kept, results)) =
        (done, left, split, (kept ∙ stages, rw (same, results) blame))

    handled :
        (c : List Stage) (e : Error)
        → Triple (Halted [] c e) (on_error svc input e) (Admitted c) (Halted [] c)
    handled c e = record {
      at = λ s h.
          Ends-weaken (on_error svc input e s) (λ a s' no. absurd no) (still c e s h)
            ((on_error_lem svc s.stages_completed s.gate_results reliable input e).at s
              (refl, refl));
    }

    pub guarded_lem :
        Triple
          (At [])
          (guarded svc input)
          (Admitted (plan_of input stage_order))
          (Halted [] (plan_of input stage_order))
    unfolding guarded
    guarded_lem = Triple-attempt body_lem (handled (plan_of input stage_order))

  Calm-by_title : (t : Text) (o : Option String) → Calm [] (by_title svc t o)
  unfolding by_title
  Calm-by_title t none = Calm-lift _
  Calm-by_title t (some id) = Calm-pure _

  Calm-by_source : (local : Bool) → Calm [] (by_source svc input local)
  unfolding by_source find_by_url
  Calm-by_source true = Calm-bind (Calm-lift _) λ h. Calm-lift _
  Calm-by_source false =
      Calm-bind (Calm-if _ (Calm-lift _) (Calm-pure none)) λ o. Calm-by_title input.title o

  Calm-resumed_with : (o : Option String) → Calm [] (resumed_with svc o)
  unfolding resumed_with
  Calm-resumed_with none = Calm-raise _
  Calm-resumed_with (some id) = Calm-modify _ λ s. (refl, refl)

  Calm-resolve_book : Calm [] (resolve_book svc input)
  unfolding resolve_book find_existing
  Calm-resolve_book = Calm-when _ (
      Calm-bind (Calm-bind (Calm-if _ (Calm-pure false) (Calm-lift _)) Calm-by_source)
        Calm-resumed_with)

  Calm-reraise_runtime : (e : Error) → Calm [] (reraise_runtime svc e)
  unfolding reraise_runtime
  Calm-reraise_runtime (gate_error g) = Calm-pure tt
  Calm-reraise_runtime (exn (value_error m)) = Calm-pure tt
  Calm-reraise_runtime (exn (runtime_error m)) = Calm-raise _
  Calm-reraise_runtime (exn (other_error m)) = Calm-pure tt

  Calm-preflight : Calm [] (preflight svc)
  unfolding preflight
  Calm-preflight =
      Calm-attempt (Calm-bind (Calm-lift _) λ passed. Calm-when _ (Calm-raise _))
        Calm-reraise_runtime

  -- What the caller of a run that returns can rely on.
  pub data Delivered (out : PipelineOutput) (s : Run W) : Type 0 where
    refused_lock :
        WasRefused svc s → out.status ≡ processing → out.stages_completed ≡ [] → Delivered out s
    delivered :
        WasGranted svc ⊎ (asks_for input ingest ≡ false)
        → out.status ≡ exported
        → out.stages_completed ≡ plan_of input stage_order
        → all_passed out.gate_results ≡ true
        → Delivered out s

  delivers :
      (refused : Bool) (s : Run W)
      → Admitted (plan_of input stage_order) refused s
      → IsAnswered svc input refused s
      → Delivered (output refused s) s
  delivers true s h l = refused_lock l refl h.0
  delivers false s h l = delivered l refl h.0 h.1

  goes_on :
      (refused : Bool)
      → Triple
          (IsAnswered svc input refused)
          (after_first svc input refused)
          (IsAnswered svc input)
          (λ _. Any)
  unfolding after_first
  goes_on true = record { at = λ s h. h }
  goes_on false = record {
    at = λ s h. (before {P = Any} _ λ _. before _ λ _. record { at = λ s' h'. h }).at s tt;
  }

  body-IsAnswered : Triple Any (body svc input) (IsAnswered svc input) (λ _. Any)
  unfolding body
  body-IsAnswered = Triple-bind (Triple-first_stage svc input) goes_on

  -- The handlers do not return.
  no_return :
      IsReliable svc
      → (e : Error) → Triple Any (on_error svc input e) (IsAnswered svc input) (λ _. Any)
  no_return reliable e = record {
    at = λ s h.
        Ends-weaken (on_error svc input e s) (λ a s' no. absurd no) (λ e' s' k. tt)
          ((on_error_lem svc s.stages_completed s.gate_results reliable input e).at s (refl, refl));
  }

  guarded-IsAnswered :
      IsReliable svc → Triple Any (guarded svc input) (IsAnswered svc input) (λ _. Any)
  unfolding guarded
  guarded-IsAnswered reliable = Triple-attempt body-IsAnswered (no_return reliable)

  -- A run that returns was either refused the lock of its book by acquire_lock, with no stage complete, or it was granted
  -- a lock, or resumed behind the first stage, and it completed exactly the stages that the input asks for, in order, and
  -- every gate passed. A run that raises completed some first stages of these; if it raises a gate's error, then that
  -- gate is the last in the results and the only one that did not pass, and otherwise every gate that ran passed. The
  -- services that the handlers call are taken to answer.
  pub run_pipeline-Ends :
      IsReliable svc
      → (w : W)
      → Ends Delivered (Halted [] (plan_of input stage_order)) (run_pipeline svc input (start w))
  unfolding run_pipeline
  run_pipeline-Ends reliable w = whole_run.at (start w) (refl, unfold all_passed in refl)
    where
      early :
          {A : Type 0} {m : Exec Error (Run W) (Unit {0})} {f : Unit {0} → Exec Error (Run W) A}
          {Q : A → Run W → Type 0}
          → Calm [] m
          → ((a : Unit {0}) → Triple (At []) (f a) Q (Halted [] (plan_of input stage_order)))
          → Triple (At []) (m >>= f) Q (Halted [] (plan_of input stage_order))
      early t u =
          Triple-bind (Triple-weaken (Calm-Quiet t) (λ s h. h) (λ a s h. h) (none_done [] _)) u

      whole_run :
          Triple (At []) (run_pipeline svc input) Delivered (Halted [] (plan_of input stage_order))
      whole_run = early Calm-resolve_book λ _. early Calm-preflight λ _.
          Triple-bind (Triple-and (guarded_lem reliable) (guarded-IsAnswered reliable) (λ s h. tt))
            λ refused. record { at = λ s h. delivers refused s h.0 h.1 }
