-- ===== src/Translate/Prepared.antt =====
-- Which rows src/transpose/pipeline/translate.py deletes before it starts, and which chunks it translates.
use transpose.Prelude.{
  member, All-weaken, ◌≡◌, refl, ap, String, Bool, true, false, not, ◌&&◌, ◌||◌, List, [], ◌∷◌, map,
  All, arith, str_eq, eq_iff, eq_refl, any, select, Bool-cases, inl, inr,
}
use transpose.Text.{is_empty}
use transpose.Translate.Rows.{
  Row, has_row, get_translated_chunk_ids, get_failed_translation_chunk_ids, delete_translation,
  delete_each, minus,
}
use transpose.Translate.Single.{ChunkRow}
use transpose.Translate.Stage.{prepare, to_translate}

-- The foreign keys: a row of the chunk is a row of the book.
abbrev pub Owned : String → List Row → ChunkRow → Type 0
Owned book_id rows c = has_row c.id rows ≡ member c.id (get_translated_chunk_ids book_id rows)

has_row-delete_translation :
    (j id : String) (rows : List Row)
    → has_row id (delete_translation j rows) ≡ (not (str_eq j id) && has_row id rows)
unfolding has_row delete_translation select any
has_row-delete_translation j id [] = ground arith
has_row-delete_translation j id (r ∷ rows) = ground (
  arith,
  has_row-delete_translation j id rows,
  eq_iff r.chunk_id j,
  eq_iff j id,
  eq_iff r.chunk_id id,
)

has_row-delete_each :
    (js : List String) (id : String) (rows : List Row)
    → has_row id (delete_each js rows) ≡ (not (member id js) && has_row id rows)
unfolding delete_each
has_row-delete_each [] id rows = refl
has_row-delete_each (j ∷ js) id rows = ground (
  arith,
  has_row-delete_each js id (delete_translation j rows),
  has_row-delete_translation j id rows,
)

member-minus :
    (ids others : List String) (id : String)
    → member id (minus ids others) ≡ (member id ids && not (member id others))
unfolding minus select
member-minus [] others id = refl
member-minus (i ∷ ids) others id =
    ground
      (arith, member-minus ids others id, eq_iff i id, ap (λ k. member k others) {x = i} {y = id})

pub prepare_lem :
    (force : Bool) (book_id : String) (rows : List Row) (c : ChunkRow)
    → Owned book_id rows c
    → has_row c.id (prepare force book_id rows).0
      ≡ (not force && member c.id (prepare force book_id rows).1)
unfolding prepare
prepare_lem true book_id rows c h =
    ground (arith, h, has_row-delete_each (get_translated_chunk_ids book_id rows) c.id rows)
prepare_lem false book_id rows c h =
    elim (Bool-cases (is_empty (get_translated_chunk_ids book_id rows))) [
      | inl e ↦ rw e h
      | inr e ↦ rw e (
          ground (
            arith,
            h,
            has_row-delete_each (get_failed_translation_chunk_ids book_id rows) c.id rows,
            member-minus (get_translated_chunk_ids book_id rows)
                (get_failed_translation_chunk_ids book_id rows) c.id,
          ))
    ]

abbrev pub ids_of : List ChunkRow → List String
ids_of chunks = map (λ c. c.id) chunks

-- Chunk ids are a primary key.
abbrev pub Distinct : List ChunkRow → Type 0
Distinct [] = Unit {0}
Distinct (c ∷ cs) = All (λ d. str_eq c.id d.id ≡ false) cs × Distinct cs

module _ (force : Bool) (ids : List String) (rows : List Row) where
  -- A chunk that is translated has no row.
  pub to_translate-free :
      (chunks : List ChunkRow)
      → All (λ c. has_row c.id rows ≡ (not force && member c.id ids)) chunks
      → All (λ c. has_row c.id rows ≡ false) (to_translate force ids chunks)
  unfolding to_translate select
  to_translate-free [] h = tt
  to_translate-free (c ∷ cs) (h, hs) = elim (Bool-cases (force || not (member c.id ids))) [
    | inl e ↦ rw e (ground (arith, h), to_translate-free cs hs)
    | inr e ↦ rw e (to_translate-free cs hs)
  ]

  -- And one that is not translated has a row.
  pub to_translate-covers :
      (chunks : List ChunkRow)
      → All (λ c. has_row c.id rows ≡ (not force && member c.id ids)) chunks
      → All
          (λ c. (has_row c.id rows || member c.id (ids_of (to_translate force ids chunks))) ≡ true)
          chunks
  unfolding to_translate select
  to_translate-covers [] h = tt
  to_translate-covers (c ∷ cs) (h, hs) = elim (Bool-cases (force || not (member c.id ids))) [
    | inl e ↦ (
      rw e (ground (arith, eq_refl c.id)),
      All-weaken cs (λ d k. rw e (ground (arith, k))) (to_translate-covers cs hs),
    )
    | inr e ↦ (rw e (ground (arith, h)), All-weaken cs (λ d k. rw e k) (to_translate-covers cs hs))
  ]

  All-to_translate :
      (P : ChunkRow → Type 0) (chunks : List ChunkRow)
      → All P chunks
      → All P (to_translate force ids chunks)
  unfolding to_translate select
  All-to_translate P [] h = tt
  All-to_translate P (c ∷ cs) (h, hs) = elim (Bool-cases (force || not (member c.id ids))) [
    | inl e ↦ rw e (h, All-to_translate _ cs hs)
    | inr e ↦ rw e (All-to_translate _ cs hs)
  ]

  pub to_translate-Distinct :
      (chunks : List ChunkRow) → Distinct chunks → Distinct (to_translate force ids chunks)
  unfolding to_translate select
  to_translate-Distinct [] h = tt
  to_translate-Distinct (c ∷ cs) (h, hs) = elim (Bool-cases (force || not (member c.id ids))) [
    | inl e ↦ rw e (All-to_translate _ cs h, to_translate-Distinct cs hs)
    | inr e ↦ rw e (to_translate-Distinct cs hs)
  ]
