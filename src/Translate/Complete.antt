-- ===== src/Translate/Complete.antt =====
-- What a run of src/transpose/pipeline/translate.py leaves in the table, whatever the model does.
use transpose.Prelude.{
  member, ◌≤◌, ◌≡◌, refl, ap, ◌∙◌, String, true, List, [], ◌∷◌, ◌++◌, length, map, All, All-weaken,
  arith, any, ◌||◌,
}
use transpose.Exec.Triple.{Triple}
use transpose.Gates.Types.{TranslationResult, TranslateOutput}
use transpose.Translate.Rows.{Row, has_row}
use transpose.Translate.Single.{ChunkRow, row_of}
use transpose.Translate.Stage.{TranslateInput}
use transpose.Translate.Prepared.{ids_of}
use transpose.Translate.Looped.{has_row-append}

-- What a run leaves: a row for each chunk; the output has the translations of `todo`, in order, and each of
-- these is a new row.
pub record Complete (input : TranslateInput) (chunks todo : List ChunkRow) (base : List Row)
    (out : TranslateOutput) (rows : List Row) : Type 0 where
  pub covered : All (λ c. has_row c.id rows ≡ true) chunks
  pub results : map (λ t. t.chunk_id) out.translations ≡ ids_of todo
  pub written : rows ≡ base ++ map (row_of input.book_id) out.translations
  pub failed : out.failed_count ≤ length todo

has_row-member :
    (book_id id : String) (ts : List TranslationResult)
    → has_row id (map (row_of book_id) ts) ≡ member id (map (λ t. t.chunk_id) ts)
unfolding has_row any
has_row-member book_id id [] = refl
has_row-member book_id id (t ∷ ts) = ground (arith, has_row-member book_id id ts)

complete :
    (input : TranslateInput) (chunks todo : List ChunkRow) (base : List Row) (out : TranslateOutput)
    (rows : List Row)
    → All (λ c. (has_row c.id base || member c.id (ids_of todo)) ≡ true) chunks
    → map (λ t. t.chunk_id) out.translations ≡ ids_of todo
    → rows ≡ base ++ map (row_of input.book_id) out.translations
    → out.failed_count ≤ length todo
    → Complete input chunks todo base out rows
complete input chunks todo base out rows covers results written failed = record {
  covered =
      All-weaken chunks
        (λ c h.
          ap (has_row c.id) written
          ∙ (has_row-append c.id base (map (row_of input.book_id) out.translations)
              ∙ rw (has_row-member input.book_id c.id out.translations, results) h))
        covers;
  results = results;
  written = written;
  failed = failed;
}
