-- ===== src/Runner/Order.antt =====
-- Which stages a run of `run_pipeline` completes, in which order, and what stands when it stops.
use transpose.Prelude.{
  ◌≡◌, refl, String, Bool, true, false, ◌&&◌, Option, none, some, List, [], ◌∷◌, ◌++◌, append-nil,
  leb, if◌then◌else◌,
}
use transpose.Exec.{Exec, pure, when, ◌>>=◌}
use transpose.Exec.Triple.{Triple, Triple-weaken, Triple-pure, Triple-bind}
use transpose.Text.{Text}
use transpose.Runner.Types.{
  Stage, ingest, ocr, chunk, translate, glossary, assemble, export, audiobook, workspace, index,
  PipelineInput, Error, Run,
}
use transpose.Runner.Services.{Services}
use transpose.Runner.Resume.{start_index}
use transpose.Runner.Stages.{
  stage_ingest, stage_ocr, stage_chunk, stage_translate, stage_glossary, stage_assemble,
  stage_export, stage_audiobook, stage_workspace, after_lock, need_book, publish, pdf_gates,
  gates_of,
}
use transpose.Runner.Program.{wants, first_stage, later_stages}
use transpose.Runner.Calm.{
  At, Quiet, Calm, Calm-Quiet, Calm-pure, Calm-end_stage_event, Calm-begin_stage_event, Calm-gets,
  Calm-lift, Calm-track, Calm-raise, Calm-bind, Calm-when, Calm-if, Calm-attempt, Calm-modify,
}
use transpose.Runner.Walk.{
  Quiet-run_gate, Quiet-bind, Quiet-when, Halted, Walk, Walk-after, Walk-before, Walk-when,
  Walk-complete, Walk-then, Walk-finish_stage,
}

-- The stages that the input asks for, in the order of `STAGE_ORDER`.
abbrev pub asks_for : PipelineInput → Stage → Bool
asks_for input audiobook =
    leb (start_index input.resume_from) 7 && wants "audiobook" input.output_formats
asks_for input k = leb (start_index input.resume_from) (index k)

unfoldable pub plan_of : PipelineInput → List Stage → List Stage
plan_of input [] = []
plan_of input (k ∷ ks) = (if asks_for input k then k ∷ [] else []) ++ plan_of input ks

module _ {W : Type 0} (svc : Services W) (input : PipelineInput) (c : List Stage) where
  Calm-need_book : (b r : Option String) → Calm {W = W} c (need_book svc b r)
  unfolding need_book
  Calm-need_book (some b) r = Calm-pure tt
  Calm-need_book none none = Calm-pure tt
  Calm-need_book none (some stage) = Calm-when _ (Calm-raise _)

  Walk-stage_ocr : Walk c (ocr ∷ []) (stage_ocr svc input)
  unfolding stage_ocr
  Walk-stage_ocr = Walk-after c (ocr ∷ []) (Calm-Quiet (Calm-begin_stage_event svc c ocr)) λ _.
      Walk-after c (ocr ∷ []) (Calm-Quiet (Calm-gets _)) λ b.
        Walk-after c (ocr ∷ []) (Calm-Quiet (Calm-need_book b input.resume_from)) λ _.
          Walk-after c (ocr ∷ []) (Calm-Quiet (Calm-lift _)) λ out.
            Walk-after c (ocr ∷ []) (Calm-Quiet (Calm-track _)) λ _.
              Walk-before c (ocr ∷ []) (Walk-finish_stage svc c ocr)
                (Quiet-run_gate svc (c ++ ocr ∷ []) _)

  Walk-stage_chunk : Walk c (chunk ∷ []) (stage_chunk svc input)
  unfolding stage_chunk
  Walk-stage_chunk =
      Walk-after c (chunk ∷ []) (Calm-Quiet (Calm-begin_stage_event svc c chunk)) λ _.
        Walk-after c (chunk ∷ []) (Calm-Quiet (Calm-gets _)) λ b.
          Walk-after c (chunk ∷ []) (Calm-Quiet (Calm-lift _)) λ _. Walk-finish_stage svc c chunk

  Walk-stage_translate : Walk c (translate ∷ []) (stage_translate svc input)
  unfolding stage_translate
  Walk-stage_translate =
      Walk-after c (translate ∷ []) (Calm-Quiet (Calm-begin_stage_event svc c translate)) λ _.
        Walk-after c (translate ∷ []) (Calm-Quiet (Calm-gets _)) λ b.
          Walk-after c (translate ∷ []) (Calm-Quiet (Calm-lift _)) λ out.
            Walk-before c (translate ∷ []) (Walk-finish_stage svc c translate) (
              Quiet-bind (Calm-Quiet (Calm-modify _ λ s. (refl, refl))) λ _.
                Quiet-bind (Calm-Quiet (Calm-track _))
                  λ _. Quiet-run_gate svc (c ++ translate ∷ []) _)

  Walk-stage_glossary : Walk c (glossary ∷ []) (stage_glossary svc)
  unfolding stage_glossary
  Walk-stage_glossary =
      Walk-after c (glossary ∷ []) (Calm-Quiet (Calm-begin_stage_event svc c glossary)) λ _.
        Walk-after c (glossary ∷ []) (Calm-Quiet (Calm-gets _)) λ b.
          Walk-after c (glossary ∷ []) (Calm-Quiet (Calm-lift _)) λ out.
            Walk-before c (glossary ∷ []) (Walk-finish_stage svc c glossary) (
              Quiet-bind (Calm-Quiet (Calm-modify _ λ s. (refl, refl)))
                λ _. Quiet-run_gate svc (c ++ glossary ∷ []) _)

  Walk-stage_assemble : Walk c (assemble ∷ []) (stage_assemble svc)
  unfolding stage_assemble
  Walk-stage_assemble =
      Walk-after c (assemble ∷ []) (Calm-Quiet (Calm-begin_stage_event svc c assemble)) λ _.
        Walk-after c (assemble ∷ []) (Calm-Quiet (Calm-gets _)) λ b.
          Walk-after c (assemble ∷ []) (Calm-Quiet (Calm-lift _)) λ out.
            Walk-before c (assemble ∷ []) (Walk-finish_stage svc c assemble)
              (Quiet-run_gate svc (c ++ assemble ∷ []) _)

  Walk-stage_audiobook : Walk c (audiobook ∷ []) (stage_audiobook svc)
  unfolding stage_audiobook
  Walk-stage_audiobook =
      Walk-after c (audiobook ∷ []) (Calm-Quiet (Calm-begin_stage_event svc c audiobook)) λ _.
        Walk-after c (audiobook ∷ []) (Calm-Quiet (Calm-gets _)) λ b.
          Walk-after c (audiobook ∷ []) (Calm-Quiet (Calm-lift _)) λ out.
            Walk-before c (audiobook ∷ []) (Walk-finish_stage svc c audiobook)
              (Quiet-run_gate svc (c ++ audiobook ∷ []) _)

  Quiet-pdf_gates : (path : Text) → Quiet c (pdf_gates svc input path)
  unfolding pdf_gates
  Quiet-pdf_gates path = Quiet-bind (Quiet-run_gate svc c _) λ _.
      Quiet-bind (Quiet-run_gate svc c _) λ _. Quiet-bind (Quiet-run_gate svc c _) λ _.
        Quiet-bind (Calm-Quiet (Calm-if _ (Calm-pure false) (Calm-lift _)))
          λ exists. Quiet-run_gate svc c _

  Quiet-gates_of : (path : Option Text) → Quiet c (gates_of svc input path)
  unfolding gates_of
  Quiet-gates_of none = Calm-Quiet (Calm-pure tt)
  Quiet-gates_of (some path) = Quiet-when _ (Quiet-pdf_gates path)

  Calm-publish : Calm c (publish svc input)
  unfolding publish
  Calm-publish = Calm-bind (Calm-gets _) λ b. Calm-bind (Calm-gets _) λ i.
      Calm-bind (Calm-gets _) λ e. Calm-bind (Calm-lift _) λ url. Calm-modify _ λ s. (refl, refl)

  Walk-stage_workspace : Walk c (workspace ∷ []) (stage_workspace svc input)
  unfolding stage_workspace
  Walk-stage_workspace =
      Walk-after c (workspace ∷ []) (Calm-Quiet (Calm-begin_stage_event svc c workspace)) λ _.
        Walk-after c (workspace ∷ [])
          (Calm-Quiet (Calm-attempt Calm-publish λ e. Calm-modify _ λ s. (refl, refl)))
          λ _.
            Walk-before c (workspace ∷ []) (Walk-complete c workspace)
              (Calm-Quiet (Calm-end_stage_event svc (c ++ workspace ∷ []) "completed"))

module _ {W : Type 0} (svc : Services W) (input : PipelineInput) (c : List Stage) where
  Walk-stage_export : Walk c (export ∷ []) (stage_export svc input)
  unfolding stage_export
  Walk-stage_export =
      Walk-after c (export ∷ []) (Calm-Quiet (Calm-begin_stage_event svc c export)) λ _.
        Walk-after c (export ∷ []) (Calm-Quiet (Calm-gets _)) λ b.
          Walk-after c (export ∷ []) (Calm-Quiet (Calm-lift _)) λ out.
            Walk-after c (export ∷ []) (Calm-Quiet (Calm-modify _ λ s. (refl, refl))) λ _.
              Walk-before c (export ∷ []) (Walk-finish_stage svc c export) (
                Quiet-bind (Calm-Quiet (Calm-modify _ λ s. (refl, refl))) λ _.
                  Quiet-bind (Calm-Quiet (Calm-track _)) λ _.
                    Quiet-bind (Quiet-run_gate svc (c ++ export ∷ []) _)
                      λ _. Quiet-gates_of svc input (c ++ export ∷ []) _)

-- What the first stage leaves: a run that is refused the lock has completed nothing.
abbrev pub Admitted : {W : Type 0} → List Stage → Bool → Run W → Type 0
Admitted q true = At []
Admitted q false = At q

module _ {W : Type 0} (svc : Services W) (input : PipelineInput) where
  ingest_first :
      {A : Type 0} {m : Exec Error (Run W) A} {f : A → Exec Error (Run W) Bool}
      → Calm [] m
      → ((a : A) → Triple (At []) (f a) (Admitted (ingest ∷ [])) (Halted [] (ingest ∷ [])))
      → Triple (At []) (m >>= f) (Admitted (ingest ∷ [])) (Halted [] (ingest ∷ []))
  ingest_first t u =
      Triple-bind
        (Triple-weaken (Calm-Quiet t) (λ s h. h) (λ a s h. h) (λ e s h. ([], ingest ∷ [], refl, h)))
        u

  after_lock_lem :
      (b : String) (locked : Bool)
      → Triple (At []) (after_lock svc b locked) (Admitted (ingest ∷ [])) (Halted [] (ingest ∷ []))
  unfolding after_lock
  after_lock_lem b true =
      Triple-bind (Walk-finish_stage svc [] ingest) λ _. Triple-pure false λ s h. h
  after_lock_lem b false = ingest_first (Calm-lift _) λ _. Triple-pure true λ s h. h

  stage_ingest_lem :
      Triple (At []) (stage_ingest svc input) (Admitted (ingest ∷ [])) (Halted [] (ingest ∷ []))
  unfolding stage_ingest
  stage_ingest_lem = ingest_first (Calm-lift _) λ out.
      ingest_first (Calm-modify _ λ s. (refl, refl)) λ _.
        ingest_first (Calm-when _ (Calm-track _)) λ _.
          ingest_first (Calm-begin_stage_event svc [] ingest)
            λ _. ingest_first (Calm-lift _) λ locked. after_lock_lem out.book_id locked

  skipped_or :
      (b : Bool)
      → Triple
          (At [])
          (if b then stage_ingest svc input else pure false)
          (Admitted (if b then ingest ∷ [] else []))
          (Halted [] (if b then ingest ∷ [] else []))
  skipped_or true = stage_ingest_lem
  skipped_or false = record { at = λ s h. h }

  pub first_stage_lem :
      Triple
        (At [])
        (first_stage svc input)
        (Admitted (plan_of input (ingest ∷ [])))
        (Halted [] (plan_of input (ingest ∷ [])))
  unfolding first_stage plan_of
  first_stage_lem = rw append-nil (skipped_or (leb (start_index input.resume_from) 0))

  twice :
      (c : List Stage) (b d : Bool) (m : Exec Error (Run W) (Unit {0})) (k : Stage)
      → Walk c (k ∷ []) m
      → Walk c (if b && d then k ∷ [] else []) (when b (when d m))
  twice c true d m k t = Walk-when c d (k ∷ []) t
  twice c false d m k t = Walk-when c false (k ∷ []) t

  pub later_stages_lem :
      (c : List Stage)
      → Walk c
          (plan_of input
            (ocr ∷ chunk ∷ translate ∷ glossary ∷ assemble ∷ export ∷ audiobook ∷ workspace ∷ []))
          (later_stages svc input)
  unfolding later_stages plan_of
  later_stages_lem c = Walk-then c _ _ (Walk-when c _ _ (Walk-stage_ocr svc input c)) (
      Walk-then _ _ _ (Walk-when _ _ _ (Walk-stage_chunk svc input _)) (
        Walk-then _ _ _ (Walk-when _ _ _ (Walk-stage_translate svc input _)) (
          Walk-then _ _ _ (Walk-when _ _ _ (Walk-stage_glossary svc input _)) (
            Walk-then _ _ _ (Walk-when _ _ _ (Walk-stage_assemble svc input _)) (
              Walk-then _ _ _ (Walk-when _ _ _ (Walk-stage_export svc input _)) (
                Walk-then _ _ _ (twice _ _ _ _ _ (Walk-stage_audiobook svc input _))
                  (rw append-nil (Walk-when _ _ _ (Walk-stage_workspace svc input _)))))))))

pub plan_of-ingest :
    (input : PipelineInput) (ks : List Stage)
    → plan_of input (ingest ∷ []) ++ plan_of input ks ≡ plan_of input (ingest ∷ ks)
unfolding plan_of
plan_of-ingest input ks = rw append-nil
