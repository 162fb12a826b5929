-- ===== src/Translate/Rows.antt =====
-- The table `translations` and its queries in src/transpose/services/database.py. A chunk has at most one row: the
-- schema says `UNIQUE (chunk_id)`.
use transpose.Prelude.{member, ℕ, String, Bool, not, ◌&&◌, List, [], ◌∷◌, map, str_eq, select, any}
use transpose.Text.{Text, codes, starts_with}

-- The columns that the stage writes. `cultural_terms` and `raw_response` are left out.
pub record Row : Type 0 where
  pub chunk_id : String
  pub book_id : String
  pub translated_text : Text
  pub model_version : String
  pub prompt_tokens : ℕ
  pub completion_tokens : ℕ

-- Whether the chunk has a row.
unfoldable pub has_row : String → List Row → Bool
unfolding any
has_row id rows = any (λ r. str_eq r.chunk_id id) rows

-- `get_translated_chunk_ids`
unfoldable pub get_translated_chunk_ids : String → List Row → List String
unfolding select
get_translated_chunk_ids book_id rows =
    map (λ r. r.chunk_id) (select (λ r. str_eq r.book_id book_id) rows)

-- `translated_text LIKE '[TRANSLATION FAILED%'`
abbrev pub is_failed : Row → Bool
is_failed r = starts_with (codes "[TRANSLATION FAILED") r.translated_text

-- `get_failed_translation_chunk_ids`
unfoldable pub get_failed_translation_chunk_ids : String → List Row → List String
unfolding select
get_failed_translation_chunk_ids book_id rows =
    map (λ r. r.chunk_id) (select (λ r. str_eq r.book_id book_id && is_failed r) rows)

-- `delete_translation`
unfoldable pub delete_translation : String → List Row → List Row
unfolding select
delete_translation id rows = select (λ r. not (str_eq r.chunk_id id)) rows

unfoldable pub delete_each : List String → List Row → List Row
unfolding delete_translation
delete_each [] rows = rows
delete_each (id ∷ ids) rows = delete_each ids (delete_translation id rows)

-- `ids -= others`
unfoldable pub minus : List String → List String → List String
unfolding select
minus ids others = select (λ id. not (member id others)) ids
