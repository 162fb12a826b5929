-- ===== src/Translate/Written.antt =====
-- What `translate_single_chunk` of src/transpose/pipeline/translate.py writes, whatever the model does.
use transpose.Prelude.{
  inr, inl, none, Option, ℕ, ◌+◌, ◌≡◌, ◌⊎◌, refl, ap, String, Bool, true, false, [], ◌∷◌, ◌++◌,
  if◌then◌else◌,
}
use transpose.Text.{Text}
use transpose.Exec.{Outcome, ok, raised, Exec}
use transpose.Exec.Triple.{Triple-attempt, Triple-weaken, Ends, Triple, Triple-bind, Triple-pure}
use transpose.Translate.Rows.{has_row}
use transpose.Translate.Split.{Exc, Model}
use transpose.Translate.Single.{
  fall_back, translate_single_chunk, split_try, first_try, ChunkRow, Work, Job, Done, lift,
  create_translation, row_of, record_result, fallback,
}

-- The progress row can be written.
abbrev pub Reports : {W : Type 0} → Model W → Type 0
Reports {W} llm = (b stage : String) (n m : ℕ) (w : W) → (llm.set_progress b stage n m w).0 ≡ ok tt

-- What a call of the model leaves alone.
pub record Same {W : Type 0} (from to : Work W) : Type 0 where
  pub rows : to.rows ≡ from.rows
  pub status : to.status ≡ from.status
  pub failed : to.failed_count ≡ from.failed_count
  pub completed : to.completed_count ≡ from.completed_count

-- One more row, which is that of the result.
pub record Recorded {W : Type 0} (job : Job) (from : Work W) (done : Done) (to : Work W)
    : Type 0 where
  pub rows : to.rows ≡ from.rows ++ row_of job.book_id done.result ∷ []
  pub status : to.status ≡ from.status
  pub completed : to.completed_count ≡ from.completed_count + 1
  pub failed : to.failed_count ≡ from.failed_count

-- One more row for the chunk, which is counted as failed exactly if its source text stands in the row.
pub record Wrote {W : Type 0} (llm : Model W) (job : Job) (chunk : ChunkRow) (from : Work W)
    (done : Done) (to : Work W) : Type 0 where
  pub rows : to.rows ≡ from.rows ++ row_of job.book_id done.result ∷ []
  pub status : to.status ≡ from.status
  pub completed : to.completed_count ≡ from.completed_count + 1
  pub id : done.result.chunk_id ≡ chunk.id
  pub failed :
      (to.failed_count ≡ from.failed_count)
      ⊎ ((to.failed_count ≡ from.failed_count + 1)
          × (done.result ≡ fallback chunk (llm.clean_devanagari_ocr chunk.source_text)))

module _ {W : Type 0} (llm : Model W) (job : Job) where
  lifted :
      {A : Type 0} (from s : Work W) (o : Outcome Exc A) (w : W)
      → Same from s
      → Ends (λ a. Same from) (λ e. Same from) (o, record s { world = w })
  lifted from s (ok a) w h = record {
    rows = h.rows;
    status = h.status;
    failed = h.failed;
    completed = h.completed;
  }
  lifted from s (raised e) w h = record {
    rows = h.rows;
    status = h.status;
    failed = h.failed;
    completed = h.completed;
  }

  lift-Same :
      {A : Type 0} (from : Work W) (m : Exec Exc W A)
      → Triple (Same from) (lift m) (λ a. Same from) (λ e. Same from)
  unfolding lift
  lift-Same from m = record { at = λ s h. lifted from s (m s.world).0 (m s.world).1 h }

  module _ (reports : Reports llm) where
    reported :
        (done : Done) (from s : Work W) (o : Outcome Exc (Unit {0})) (w : W)
        → o ≡ ok tt
        → Recorded job from done s
        → Ends (λ _. Recorded job from done) (λ _ _. ⊥) (o, record s { world = w })
    reported done from s (ok a) w e h = record {
      rows = h.rows;
      status = h.status;
      completed = h.completed;
      failed = h.failed;
    }
    reported done from s (raised x) w e h = cc

    report-Recorded :
        (done : Done) (from : Work W) (n : ℕ)
        → Triple
            (Recorded job from done)
            (lift (llm.set_progress job.book_id "translate" n job.total))
            (λ _. Recorded job from done)
            (λ _ _. ⊥)
    unfolding lift
    report-Recorded done from n = record {
      at = λ s h. reported done from s _ _ (reports job.book_id "translate" n job.total s.world) h;
    }

    created :
        (done : Done) (from s : Work W) (b : Bool)
        → b ≡ false
        → Same from s
        → Ends
            (λ _ to.
              Recorded job from done (record to { completed_count = to.completed_count + 1 }))
            (λ _ _. ⊥)
            (if b
              then (raised (Exc.unique_violation done.result.chunk_id), s)
              else (ok tt, record s { rows = s.rows ++ row_of job.book_id done.result ∷ [] }))
    created done from s true e h = cc
    created done from s false e h = record {
      rows = ap (λ l. l ++ row_of job.book_id done.result ∷ []) h.rows;
      status = h.status;
      completed = ap (λ n. n + 1) h.completed;
      failed = h.failed;
    }

    record_result_lem :
        (done : Done) (from : Work W)
        → has_row done.result.chunk_id from.rows ≡ false
        → Triple
            (Same from)
            (record_result llm job done)
            (λ d to. (d ≡ done) × Recorded job from done to)
            (λ _ _. ⊥)
    unfolding record_result create_translation
    record_result_lem done from free =
        Triple-bind (record { at = λ s h. created done from s _ (rw h.rows free) h })
          λ _.
            Triple-bind {Q = λ _. Recorded job from done} (record { at = λ s h. h })
              λ _.
                Triple-bind {Q = λ _. Recorded job from done} (record { at = λ s h. h })
                  λ n.
                    Triple-bind (report-Recorded done from n) λ _. Triple-pure done λ s h. (refl, h)

    module _ (chunk : ChunkRow) (prev_context : Option Text) (from : Work W)
        (free : has_row chunk.id from.rows ≡ false) where
      wrote :
          (done d : Done) (to : Work W)
          → done.result.chunk_id ≡ chunk.id
          → (d ≡ done) × Recorded job from done to
          → Wrote llm job chunk from d to
      wrote done d to e (same, r) = record {
        rows = rw same r.rows;
        status = r.status;
        completed = r.completed;
        id = rw same e;
        failed = inl r.failed;
      }

      first_try_lem :
          Triple
            (Same from)
            (first_try llm job chunk prev_context)
            (Wrote llm job chunk from)
            (λ e. Same from)
      unfolding first_try
      first_try_lem = Triple-bind (lift-Same from _) λ r.
          Triple-weaken (record_result_lem _ from free) (λ s h. h) (λ d to h. wrote _ d to refl h)
            (λ e s no. absurd no)

      split_try_lem :
          Triple
            (Same from)
            (split_try llm job chunk prev_context)
            (Wrote llm job chunk from)
            (λ e. Same from)
      unfolding split_try
      split_try_lem = Triple-bind (lift-Same from _) λ c.
          Triple-weaken (record_result_lem _ from free) (λ s h. h) (λ d to h. wrote _ d to refl h)
            (λ e s no. absurd no)

      abbrev failing : Work W
      failing = record from { failed_count = from.failed_count + 1 }

      kept_source :
          (d : Done) (to : Work W)
          → (d ≡ record {
            result = fallback chunk (llm.clean_devanagari_ocr chunk.source_text);
            terms = 0;
            response = none;
          })
            × Recorded job failing
                (record {
                  result = fallback chunk (llm.clean_devanagari_ocr chunk.source_text);
                  terms = 0;
                  response = none;
                })
                to
          → Wrote llm job chunk from d to
      kept_source d to (same, r) = record {
        rows = rw same r.rows;
        status = r.status;
        completed = r.completed;
        id = rw same refl;
        failed = inr (r.failed, rw same refl);
      }

      fall_back_lem :
          Triple (Same from) (fall_back llm job chunk) (Wrote llm job chunk from) (λ _ _. ⊥)
      unfolding fall_back
      fall_back_lem =
          Triple-bind {Q = λ _. Same failing}
            (record {
              at = λ s h. record {
                rows = h.rows;
                status = h.status;
                failed = ap (λ n. n + 1) h.failed;
                completed = h.completed;
              };
            })
            λ _.
              Triple-weaken (record_result_lem _ failing free) (λ s h. h) kept_source (λ e s no. no)

      -- Whatever the model does, a chunk without a row gets one.
      pub translate_single_chunk_lem :
          Triple
            (Same from)
            (translate_single_chunk llm job chunk prev_context)
            (Wrote llm job chunk from)
            (λ _ _. ⊥)
      unfolding translate_single_chunk
      translate_single_chunk_lem =
          Triple-attempt first_try_lem
            λ exc. Triple-attempt split_try_lem λ split_exc. fall_back_lem
