-- ===== src/Translate/Counted.antt =====
-- How often the stage of src/transpose/pipeline/translate.py can ask the model, by a measure of the outer world to which a
-- request adds no more than a bound and the reports of progress add nothing.
use transpose.Prelude.{
  ℕ, suc, ◌+◌, ◌*◌, ◌≤◌, String, Option, none, some, List, [], ◌∷◌, length, leb, ◌==◌, ◌||◌, arith,
  Bool-cases, inl, inr,
}
use native.Mathlib.Nat.{suc-mul}
use transpose.Text.{Text, is_empty}
use transpose.Exec.{Exec, ◌>>=◌}
use transpose.Exec.Within.{
  Within, Within-pure, Within-raise, Within-more, Within-bind, Within-attempt, Within-if,
}
use transpose.Translate.Rows.{Row, has_row}
use transpose.Translate.Split.{Exc, Request, Response, Model, retry_with_split, halves}
use transpose.Translate.Single.{
  ChunkRow, Work, Job, Done, lift, create_translation, row_of, record_result, first_try, split_try,
  fall_back, translate_single_chunk,
}
use transpose.Translate.Stage.{
  TranslateInput, prepare, to_translate, newer, context_of, one_by_one, gather, translate_chunks,
  translate_book, run,
}

-- The chunks of a run that have no row to keep.
abbrev pub todo_of : {W : Type 0} → TranslateInput → List ChunkRow → Work W → List ChunkRow
todo_of input chunks s =
    to_translate input.force_retranslate (prepare input.force_retranslate input.book_id s.rows).1
      chunks

module _ {W : Type 0} (measure : W → ℕ) where
  abbrev pub outer : Work W → ℕ
  outer s = measure s.world

  lifted : {A : Type 0} {k : ℕ} {op : Exec Exc W A} → Within measure k op → Within outer k (lift op)
  unfolding lift
  lifted h = record { at = λ s. h.at s.world }

  created : (row : Row) → Within outer 0 (create_translation {W = W} row)
  unfolding create_translation
  created row = record {
    at = λ s. elim (Bool-cases (has_row row.chunk_id s.rows)) [
      | inl e ↦ rw e (omega arith)
      | inr e ↦ rw e (omega arith)
    ];
  }

  module _ (llm : Model W) (bound : ℕ)
      (asks : (request : Request) → Within measure bound (llm.translate_chunk request))
      (reports : (book stage : String) (n total : ℕ)
        → Within measure 0 (llm.set_progress book stage n total)) where
    recorded : (job : Job) (done : Done) → Within outer 0 (record_result llm job done)
    unfolding record_result
    recorded job done = Within-bind (created (row_of job.book_id done.result)) λ _.
        Within-bind {j = 0} {k = 0} (record { at = λ s. omega arith })
          λ _.
            Within-bind {j = 0} {k = 0} (record { at = λ s. omega arith })
              λ n.
                Within-bind {j = 0} {k = 0} (lifted (reports job.book_id "translate" n job.total))
                  λ _. Within-pure done

    Within-first_try :
        (job : Job) (chunk : ChunkRow) (context : Option Text)
        → Within outer (bound + 0) (first_try llm job chunk context)
    unfolding first_try
    Within-first_try job chunk context = Within-bind (lifted (asks _)) λ response. recorded job _

    Within-retry_with_split :
        (t : Text) (language : String) (context : Option Text)
        → Within measure (bound + (bound + 0)) (retry_with_split llm t language context)
    unfolding retry_with_split
    Within-retry_with_split t language context =
        Within-if (is_empty (halves t).0 || is_empty (halves t).1) (Within-raise _)
          (Within-bind (asks _) λ first. Within-bind (asks _) λ second. Within-pure _)

    Within-translate_single_chunk :
        (job : Job) (chunk : ChunkRow) (context : Option Text)
        → Within outer (3 * bound) (translate_single_chunk llm job chunk context)
    unfolding translate_single_chunk split_try fall_back
    Within-translate_single_chunk job chunk context = Within-more (omega arith) (
        Within-attempt (Within-first_try job chunk context) λ e.
          Within-attempt
            (Within-bind
              (lifted (Within-retry_with_split chunk.source_text job.source_language context))
              λ c. recorded job _)
            λ e. Within-bind {j = 0} {k = 0} (record { at = λ s. omega arith }) λ _. recorded job _)

    one_more : (n : ℕ) → 3 * bound + (n * (3 * bound) + 0) ≤ suc n * (3 * bound)
    one_more n = omega (arith, suc-mul n (3 * bound))

    one_by_one-Within :
        (job : Job) (previous : Option Response) (chunks : List ChunkRow)
        → Within outer (length chunks * (3 * bound)) (one_by_one llm job previous chunks)
    unfolding one_by_one
    one_by_one-Within job previous [] = Within-pure []
    one_by_one-Within job previous (chunk ∷ chunks) = Within-more (one_more (length chunks)) (
        Within-bind (Within-translate_single_chunk job chunk (context_of previous)) λ done.
          Within-bind (one_by_one-Within job (newer done.response previous) chunks)
            λ rest. Within-pure {k = 0} (done ∷ rest))

    gather-Within :
        (job : Job) (chunks : List ChunkRow)
        → Within outer (length chunks * (3 * bound)) (gather llm job chunks)
    unfolding gather
    gather-Within job [] = Within-pure []
    gather-Within job (chunk ∷ chunks) = Within-more (one_more (length chunks)) (
        Within-bind (Within-translate_single_chunk job chunk none)
          λ done. Within-bind (gather-Within job chunks) λ rest. Within-pure {k = 0} (done ∷ rest))

    translate_chunks-Within :
        (input : TranslateInput) (language : String) (ids : List String) (chunks : List ChunkRow)
        → Within outer
            (length chunks * (3 * bound))
            (translate_chunks llm input language ids chunks)
    unfolding translate_chunks
    translate_chunks-Within input language ids chunks = Within-more (omega arith) (
        Within-bind {j = 0} (record { at = λ s. omega arith })
          λ _.
            Within-bind
              (Within-if (leb input.concurrency 1) (one_by_one-Within _ none chunks)
                (gather-Within _ chunks))
              λ done.
                Within-bind {j = 0}
                  (Within-if (length done == length chunks) (record { at = λ s. omega arith })
                    (Within-raise _))
                  λ _.
                    Within-bind {j = 0} {k = 0} (record { at = λ s. omega arith })
                      λ failed. Within-pure _)

    pub run-outer :
        (input : TranslateInput) (language : Option String) (chunks : List ChunkRow) (s : Work W)
        → outer (run llm input language chunks s).1
          ≤ outer s + length (todo_of input chunks s) * (3 * bound)
    unfolding run translate_book ◌>>=◌
    run-outer input none chunks s = omega arith
    run-outer input (some language) [] s = omega arith
    run-outer input (some language) (c ∷ cs) s =
        let p = prepare input.force_retranslate input.book_id s.rows in
        elim (Bool-cases (is_empty (todo_of input (c ∷ cs) s))) [
          | inl e ↦ rw e (omega arith)
          | inr e ↦ rw e (
              (translate_chunks-Within input language p.1 (todo_of input (c ∷ cs) s)).at
                (record s { rows = p.0 }))
        ]
