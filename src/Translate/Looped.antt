-- ===== src/Translate/Looped.antt =====
-- What the loops over the chunks in src/transpose/pipeline/translate.py write, one after another and gathered.
use transpose.Prelude.{
  ◌+◌, ◌≤◌, ◌≡◌, refl, sym, ap, ◌∙◌, String, Bool, true, false, Option, none, List, [], ◌∷◌, ◌++◌,
  length, map, All, append-nil, append_assoc, arith, str_eq, any, ◌||◌, if◌then◌else◌,
}
use transpose.Exec.{Exec, pure, ◌>>=◌}
use transpose.Exec.Triple.{Triple, Triple-bind, Triple-pure}
use transpose.Translate.Rows.{Row, has_row}
use transpose.Translate.Split.{Exc, Response, Model}
use transpose.Translate.Single.{ChunkRow, Work, Job, Done, row_of, translate_single_chunk}
use transpose.Translate.Stage.{newer, one_by_one, gather}
use transpose.Translate.Written.{Reports, Same, Wrote, translate_single_chunk_lem}
use transpose.Translate.Prepared.{ids_of, Distinct}

abbrev pub done_id : Done → String
done_id d = d.result.chunk_id

pub has_row-append :
    (id : String) (xs ys : List Row) → has_row id (xs ++ ys) ≡ (has_row id xs || has_row id ys)
unfolding has_row any
has_row-append id [] ys = refl
has_row-append id (x ∷ xs) ys = ground (arith, has_row-append id xs ys)

abbrev pub Free : List Row → List ChunkRow → Type 0
Free rows chunks = All (λ c. has_row c.id rows ≡ false) chunks

-- What a loop over the chunks writes.
pub record WroteAll {W : Type 0} (book_id : String) (chunks : List ChunkRow) (from : Work W)
    (ds : List Done) (to : Work W) : Type 0 where
  pub rows : to.rows ≡ from.rows ++ map (λ d. row_of book_id d.result) ds
  pub ids : map done_id ds ≡ ids_of chunks
  pub completed : to.completed_count ≡ from.completed_count + length chunks
  pub failed : to.failed_count ≤ from.failed_count + length chunks

module _ {W : Type 0} (llm : Model W) (reports : Reports llm) (job : Job) where
  next-Free :
      (chunk : ChunkRow) (chunks : List ChunkRow) (from mid : Work W) (d : Done)
      → All (λ c. str_eq chunk.id c.id ≡ false) chunks
      → Wrote llm job chunk from d mid
      → Free from.rows chunks
      → Free mid.rows chunks
  unfolding has_row any
  next-Free chunk [] from mid d v w h = tt
  next-Free chunk (c ∷ cs) from mid d (v, vs) w (h, hs) = (
    ap (has_row c.id) w.rows
        ∙ (has_row-append c.id from.rows (row_of job.book_id d.result ∷ []) ∙ rw (h, w.id, v) refl),
    next-Free chunk cs from mid d vs w hs,
  )

  write_more :
      (chunk : ChunkRow) (chunks : List ChunkRow) (from mid to : Work W) (d : Done) (ds : List Done)
      → Wrote llm job chunk from d mid
      → WroteAll job.book_id chunks mid ds to
      → WroteAll job.book_id (chunk ∷ chunks) from (d ∷ ds) to
  write_more chunk chunks from mid to d ds w v = record {
    rows = v.rows ∙ rw w.rows (append_assoc from.rows (row_of job.book_id d.result ∷ []) _);
    ids = rw (w.id, v.ids) refl;
    completed = omega (arith, v.completed, w.completed);
    failed = ground (arith, v.failed, w.failed);
  }

  loop_step :
      (chunk : ChunkRow) (chunks : List ChunkRow) (prev : Done → Exec Exc (Work W) (List Done))
      (context : Option _) (from : Work W)
      → ((d : Done) (mid : Work W)
          → Free mid.rows chunks
          → Triple (Same mid) (prev d) (λ ds. WroteAll job.book_id chunks mid ds) (λ _ _. ⊥))
      → Free from.rows (chunk ∷ chunks)
      → Distinct (chunk ∷ chunks)
      → Triple
          (Same from)
          (translate_single_chunk llm job chunk context >>= λ d. (prev d >>= λ ds. pure (d ∷ ds)))
          (λ ds. WroteAll job.book_id (chunk ∷ chunks) from ds)
          (λ _ _. ⊥)
  loop_step chunk chunks prev context from ih (h, hs) (v, vs) =
      Triple-bind (translate_single_chunk_lem llm job reports chunk context from h) λ d. record {
        at = λ mid w.
            (Triple-bind (ih d mid (next-Free chunk chunks from mid d v w hs))
                λ ds. Triple-pure (d ∷ ds) λ to r. write_more chunk chunks from mid to d ds w r).at
              mid (record { rows = refl; status = refl; failed = refl; completed = refl });
      }

  none_left : (from s : Work W) → Same from s → WroteAll job.book_id [] from [] s
  none_left from s h = record {
    rows = h.rows ∙ sym (append-nil from.rows);
    ids = refl;
    completed = omega (arith, h.completed);
    failed = omega (arith, h.failed);
  }

  one_by_one_lem :
      (chunks : List ChunkRow) (previous : Option Response) (from : Work W)
      → Free from.rows chunks
      → Distinct chunks
      → Triple
          (Same from)
          (one_by_one llm job previous chunks)
          (WroteAll job.book_id chunks from)
          (λ _ _. ⊥)
  unfolding one_by_one
  one_by_one_lem [] previous from h v = Triple-pure [] (none_left from)
  one_by_one_lem (c ∷ cs) previous from h v =
      loop_step c cs _ _ from (λ d mid k. one_by_one_lem cs (newer d.response previous) mid k v.1) h
        v

  gather_lem :
      (chunks : List ChunkRow) (from : Work W)
      → Free from.rows chunks
      → Distinct chunks
      → Triple (Same from) (gather llm job chunks) (WroteAll job.book_id chunks from) (λ _ _. ⊥)
  unfolding gather
  gather_lem [] from h v = Triple-pure [] (none_left from)
  gather_lem (c ∷ cs) from h v = loop_step c cs _ _ from (λ d mid k. gather_lem cs mid k v.1) h v

  -- Either mode.
  pub both_modes :
      (sequential : Bool) (chunks : List ChunkRow) (from : Work W)
      → Free from.rows chunks
      → Distinct chunks
      → Triple
          (Same from)
          (if sequential then one_by_one llm job none chunks else gather llm job chunks)
          (WroteAll job.book_id chunks from)
          (λ _ _. ⊥)
  both_modes true chunks from h v = one_by_one_lem chunks none from h v
  both_modes false chunks from h v = gather_lem chunks from h v
