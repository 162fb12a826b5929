-- ===== src/Translate/Lost.antt =====
-- The chunk of src/transpose/pipeline/translate.py whose row is written but whose progress is not: the row is inside
-- the `try`, so each of the later attempts writes a second one.
use transpose.Prelude.{
  ◌≡◌, refl, true, false, Option, ◌++◌, [], ◌∷◌, arith, any, if◌then◌else◌, ℕ, Bool, String, ap,
  ◌∙◌, eq_iff,
}
use transpose.Exec.{Outcome, ok, raised, Exec}
use transpose.Exec.Triple.{Ends, Triple, Triple-bind, Triple-weaken, Triple-attempt}
use transpose.Text.{Text}
use transpose.Translate.Rows.{has_row}
use transpose.Translate.Split.{Exc, unique_violation, Model, Request, Response}
use transpose.Translate.Single.{
  ChunkRow, Work, Job, Done, lift, row_of, record_result, create_translation, first_try, split_try,
  fall_back, translate_single_chunk,
}
use transpose.Translate.Looped.{has_row-append}

abbrev pub Answers : {W : Type 0} → Model W → Type 0
Answers {W} llm = (q : Request) (w : W) → (r : Response) × ((llm.translate_chunk q w).0 ≡ ok r)

abbrev pub NeverReports : {W : Type 0} → Model W → Type 0
NeverReports {W} llm =
    (b stage : String) (n m : ℕ) (w : W)
    → (e : Exc) × ((llm.set_progress b stage n m w).0 ≡ raised e)

module _ {W : Type 0} (llm : Model W) (job : Job) (chunk : ChunkRow) where
  abbrev Stored : Work W → Type 0
  Stored s = has_row chunk.id s.rows ≡ true

  abbrev Refused : Exc → Work W → Type 0
  Refused e s = (e ≡ unique_violation chunk.id) × (has_row chunk.id s.rows ≡ true)

  lifted :
      {A : Type 0} (s : Work W) (o : Outcome Exc A) (w : W)
      → Stored s
      → Ends (λ a. Stored) (λ e. Stored) (o, record s { world = w })
  lifted s (ok a) w h = h
  lifted s (raised e) w h = h

  lift-Stored : {A : Type 0} (m : Exec Exc W A) → Triple Stored (lift m) (λ a. Stored) (λ e. Stored)
  unfolding lift
  lift-Stored m = record { at = λ s h. lifted s (m s.world).0 (m s.world).1 h }

  refused :
      (done : Done) (s s' : Work W) (b : Bool)
      → done.result.chunk_id ≡ chunk.id
      → b ≡ true
      → Stored s
      → Ends
          (λ _ _. ⊥)
          Refused
          (if b then (raised (unique_violation done.result.chunk_id), s) else (ok tt, s'))
  refused done s s' true e g h = (ap unique_violation e, h)
  refused done s s' false e g h = cc

  -- A second row of the chunk is refused.
  record_result-Refused :
      (done : Done)
      → done.result.chunk_id ≡ chunk.id
      → Triple Stored (record_result llm job done) (λ _ _. ⊥) Refused
  unfolding record_result create_translation
  record_result-Refused done e =
      Triple-bind {Q = λ _ _. ⊥} (record { at = λ s h. refused done s _ _ e (rw e h) h })
        λ _. record { at = λ s no. absurd no }

  unreported :
      (s : Work W) (o : Outcome Exc (Unit {0})) (w : W)
      → (e : Exc) × (o ≡ raised e)
      → Stored s
      → Ends (λ _ _. ⊥) (λ e. Stored) (o, record s { world = w })
  unreported s (ok a) w (e, h) k = cc
  unreported s (raised x) w h k = k

  module _ (fails : NeverReports llm) where
    Stored-create :
        (done : Done) (s : Work W) (b : Bool)
        → done.result.chunk_id ≡ chunk.id
        → b ≡ false
        → Ends
            (λ _. Stored)
            (λ _. Stored)
            (if b
              then (raised (unique_violation done.result.chunk_id), s)
              else (ok tt, record s { rows = s.rows ++ row_of job.book_id done.result ∷ [] }))
    unfolding has_row any
    Stored-create done s true e g = cc
    Stored-create done s false e g =
        has_row-append chunk.id s.rows _ ∙ ground (arith, eq_iff done.result.chunk_id chunk.id, e)

    record_result-Stored :
        (done : Done)
        → done.result.chunk_id ≡ chunk.id
        → Triple
            (λ s. has_row chunk.id s.rows ≡ false)
            (record_result llm job done)
            (λ _ _. ⊥)
            (λ _. Stored)
    unfolding record_result create_translation lift
    record_result-Stored done e =
        Triple-bind {Q = λ _. Stored} (record { at = λ s h. Stored-create done s _ e (rw e h) })
          λ _.
            Triple-bind {Q = λ _. Stored} (record { at = λ s h. h })
              λ _.
                Triple-bind {Q = λ _. Stored} (record { at = λ s h. h })
                  λ n.
                    Triple-bind {Q = λ _ _. ⊥}
                      (record {
                        at = λ s h.
                            unreported s _ _ (fails job.book_id "translate" n job.total s.world) h;
                      })
                      λ _. record { at = λ s no. absurd no }

    module _ (answers : Answers llm) (prev_context : Option Text) where
      answered :
          (s : Work W) (o : Outcome Exc Response) (w : W)
          → (r : Response) × (o ≡ ok r)
          → has_row chunk.id s.rows ≡ false
          → Ends
              (λ _ to. has_row chunk.id to.rows ≡ false)
              (λ _. Stored)
              (o, record s { world = w })
      answered s (ok a) w h k = k
      answered s (raised x) w (r, h) k = cc

      first_try-Stored :
          Triple
            (λ s. has_row chunk.id s.rows ≡ false)
            (first_try llm job chunk prev_context)
            (λ _ _. ⊥)
            (λ _. Stored)
      unfolding first_try lift
      first_try-Stored =
          Triple-bind {Q = λ _ to. has_row chunk.id to.rows ≡ false}
            (record { at = λ s h. answered s _ _ (answers _ s.world) h })
            λ r. record_result-Stored _ refl

      split_try-Stored :
          Triple Stored (split_try llm job chunk prev_context) (λ _ _. ⊥) (λ _. Stored)
      unfolding split_try
      split_try-Stored =
          Triple-bind (lift-Stored _) λ c.
            Triple-weaken (record_result-Refused _ refl) (λ s h. h) (λ d s no. no) (λ e s h. h.1)

      fall_back-Refused : Triple Stored (fall_back llm job chunk) (λ _ _. ⊥) Refused
      unfolding fall_back
      fall_back-Refused =
          Triple-bind {Q = λ _. Stored} (record { at = λ s h. h }) λ _. record_result-Refused _ refl

      -- If the model answers every request and the progress row can never be written, a chunk without a row ends in the
      -- unique violation of its own row, which stands in the table.
      pub translate_single_chunk-unique_violation :
          (s : Work W)
          → has_row chunk.id s.rows ≡ false
          → Ends
              (λ _ _. ⊥)
              (λ e to. (e ≡ unique_violation chunk.id) × (has_row chunk.id to.rows ≡ true))
              (translate_single_chunk llm job chunk prev_context s)
      unfolding translate_single_chunk
      translate_single_chunk-unique_violation s h =
          (Triple-attempt first_try-Stored
              λ exc. Triple-attempt split_try-Stored λ split_exc. fall_back-Refused).at
            s h
