-- ===== src/Translate/Settled.antt =====
-- When a run of src/transpose/pipeline/translate.py translates nothing.
use transpose.Prelude.{
  member, ℕ, ◌≡◌, refl, ap, String, true, false, ◌&&◌, some, List, [], ◌∷◌, ◌++◌, length, All,
  All-weaken, arith, str_eq, select, Bool-cases, inl, inr,
}
use transpose.Text.{Text, starts_with}
use transpose.Exec.{ok, ◌>>=◌}
use transpose.Gates.Translation.{translation_completeness_gate}
use transpose.Translate.Rows.{
  Row, get_translated_chunk_ids, get_failed_translation_chunk_ids, delete_each, minus, is_failed,
}
use transpose.Translate.Split.{Model}
use transpose.Translate.Single.{ChunkRow, Work, fallback_prefix}
use transpose.Translate.Stage.{
  TranslateInput, prepare, to_translate, nothing_to_do, translate_book, run,
}

-- A row of another book, or one that does not begin with the marker that the stage looks for.
abbrev pub Kept : String → Row → Type 0
Kept book_id r = (str_eq r.book_id book_id && is_failed r) ≡ false

no_failed :
    (book_id : String) (rows : List Row)
    → All (Kept book_id) rows
    → get_failed_translation_chunk_ids book_id rows ≡ []
unfolding get_failed_translation_chunk_ids select
no_failed book_id [] h = refl
no_failed book_id (r ∷ rows) (h, hs) = rw h (no_failed book_id rows hs)

minus-nil : (ids : List String) → minus ids [] ≡ ids
unfolding minus select
minus-nil [] = refl
minus-nil (i ∷ ids) = ap (λ l. i ∷ l) (minus-nil ids)

prepare-Kept :
    (book_id : String) (rows : List Row)
    → All (Kept book_id) rows
    → prepare false book_id rows ≡ (rows, get_translated_chunk_ids book_id rows)
unfolding prepare delete_each
prepare-Kept book_id rows h =
    ground (arith, no_failed book_id rows h, minus-nil (get_translated_chunk_ids book_id rows))

to_translate-eq-nil :
    (ids : List String) (chunks : List ChunkRow)
    → All (λ c. member c.id ids ≡ true) chunks
    → to_translate false ids chunks ≡ []
unfolding to_translate select
to_translate-eq-nil ids [] h = refl
to_translate-eq-nil ids (c ∷ cs) (h, hs) = rw h (to_translate-eq-nil ids cs hs)

nothing_passes :
    {W : Type 0} (llm : Model W) (n : ℕ)
    → (translation_completeness_gate (nothing_to_do llm n)).passed ≡ true
unfolding translation_completeness_gate nothing_to_do
nothing_passes llm n = refl

module _ {W : Type 0} (llm : Model W) (book_id : String) (concurrency : ℕ) where
  abbrev second_input : TranslateInput
  second_input = record { book_id = book_id; force_retranslate = false; concurrency = concurrency }

  -- Behind the lookups.
  book_settled :
      (source_language : String) (chunks : List ChunkRow) (s : Work W)
      → All (Kept book_id) s.rows
      → All (λ d. member d.id (get_translated_chunk_ids book_id s.rows) ≡ true) chunks
      → translate_book llm second_input source_language chunks s
        ≡ (ok (nothing_to_do llm (length chunks)), s)
  unfolding translate_book ◌>>=◌
  book_settled source_language chunks s k h =
      rw
        (
          prepare-Kept book_id s.rows k,
          to_translate-eq-nil (get_translated_chunk_ids book_id s.rows) chunks h,
        )
        refl

  -- If each chunk of the book has a row of it and no row of the book begins with the failure marker, a run that is not
  -- forced calls nothing and changes nothing: it returns that there is nothing to do, and its output passes the
  -- translation gate.
  pub run_settled :
      (source_language : String) (c : ChunkRow) (cs : List ChunkRow) (s : Work W)
      → All (Kept book_id) s.rows
      → All (λ d. member d.id (get_translated_chunk_ids book_id s.rows) ≡ true) (c ∷ cs)
      → (run llm second_input (some source_language) (c ∷ cs) s
          ≡ (ok (nothing_to_do llm (length (c ∷ cs))), s))
        × ((translation_completeness_gate (nothing_to_do llm (length (c ∷ cs)))).passed ≡ true)
  unfolding run
  run_settled source_language c cs s k h =
      (book_settled source_language (c ∷ cs) s k h, nothing_passes llm _)

  abbrev pub ShowsSource : Row → Type 0
  ShowsSource r = (t : Text) × (r.translated_text ≡ fallback_prefix ++ t)

  shows-Kept : (r : Row) → ShowsSource r → Kept book_id r
  unfolding starts_with
  shows-Kept r (t, e) =
      rw e (elim (Bool-cases (str_eq r.book_id book_id)) [ inl h ↦ rw h refl | inr h ↦ rw h refl ])

  -- If each chunk of the book has a row of it and every row shows its source text behind the fallback prefix, a run that
  -- is not forced tries none of them again, and its output passes the translation gate.
  pub fallbacks_settle :
      (source_language : String) (c : ChunkRow) (cs : List ChunkRow) (s : Work W)
      → All ShowsSource s.rows
      → All (λ d. member d.id (get_translated_chunk_ids book_id s.rows) ≡ true) (c ∷ cs)
      → (run llm second_input (some source_language) (c ∷ cs) s
          ≡ (ok (nothing_to_do llm (length (c ∷ cs))), s))
        × ((translation_completeness_gate (nothing_to_do llm (length (c ∷ cs)))).passed ≡ true)
  fallbacks_settle source_language c cs s f h =
      run_settled source_language c cs s (All-weaken s.rows shows-Kept f) h
