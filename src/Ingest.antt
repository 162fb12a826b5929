-- ===== src/Ingest.antt =====
-- The ingest stage, src/transpose/pipeline/ingest.py, on the table of books of src/transpose/services/database.py. The
-- file system, the blob store, SHA-256 and the PDF library are the record `Sources`, and `W` is what the blob store
-- changes. A path or URI is a text.
pub mod Once
mod Tests
use transpose.Prelude.{
  ℕ, ◌+◌, String, Bool, true, false, not, Option, none, some, List, [], ◌∷◌, ◌++◌, any, str_eq,
  ◌==◌, if◌then◌else◌,
}
use transpose.Text.{Text, codes, is_empty}
use transpose.Exec.{Outcome, ok, raised, Exec, pure, raise, ◌>>=◌, ◌>>◌}

pub data IngestError : Type 0 where
  file_not_found : Text → IngestError
  cannot_parse : Text → IngestError
  unique_violation : String → IngestError
  service_error : String → IngestError

pub record IngestInput : Type 0 where
  pub source_path : Text
  pub title : Text
  pub blob_uri : Option Text

-- Of a book what the stage reads again.
pub record Book : Type 0 where
  pub id : String
  pub title : Text
  pub source_hash : String
  pub source_blob_uri : Text
  pub page_count : ℕ

pub record IngestOutput : Type 0 where
  pub book_id : String
  pub source_hash : String
  pub source_blob_uri : Text
  pub page_count : ℕ
  pub already_existed : Bool

-- `url_path` is `urlparse(uri).path`, `read_file` gives nothing if there is no such file, and `count_pages` opens the PDF.
pub record Sources (W : Type 0) : Type 0 where
  pub url_path : Text → Text
  pub download_blob : Text → Text → Exec IngestError W Text
  pub upload_pdf : String → Text → Exec IngestError W Text
  pub read_file : Text → Option Text
  pub sha256 : Text → String
  pub count_pages : Text → Outcome IngestError ℕ

pub record Store (W : Type 0) : Type 0 where
  pub books : List Book
  pub world : W

-- `path.lstrip("/")`
unfoldable pub lstrip_slash : Text → Text
lstrip_slash [] = []
lstrip_slash (c ∷ s) = let rest = lstrip_slash s in if c == b'/' then rest else c ∷ s

-- `s.split("/", 1)` of two parts
unfoldable pub split_slash : Text → Option (Text × Text)
split_slash [] = none
split_slash (c ∷ s) =
    let rest = split_slash s in
    if c == b'/' then some ([], s) else elim rest [ none ↦ none | some p ↦ some (c ∷ p.0, p.1) ]

-- `_parse_blob_uri`
unfoldable pub parse_blob_uri : (Text → Text) → Text → Option (Text × Text)
unfolding lstrip_slash split_slash
parse_blob_uri url_path blob_uri = split_slash (lstrip_slash (url_path blob_uri))

-- `get_book_by_hash`
unfoldable pub get_book_by_hash : String → List Book → Option Book
get_book_by_hash hash [] = none
get_book_by_hash hash (b ∷ bs) =
    if str_eq b.source_hash hash then some b else get_book_by_hash hash bs

module _ {W : Type 0} (sources : Sources W) where
  abbrev pub on_world : {A : Type 0} → Exec IngestError W A → Exec IngestError (Store W) A
  on_world op s = let (o, w) = op s.world in (o, record s { world = w })

  -- `create_book`: `source_hash` is unique.
  abbrev pub insert_book : Book → Option Book → Exec IngestError (Store W) (Unit {0})
  insert_book b none s = (ok tt, record s { books = b ∷ s.books })
  insert_book b (some _) s = (raised (unique_violation b.source_hash), s)

  unfoldable pub create_book : Book → Exec IngestError (Store W) (Unit {0})
  unfolding get_book_by_hash
  create_book b s = insert_book b (get_book_by_hash b.source_hash s.books) s

  abbrev pub download : Text → Option (Text × Text) → Exec IngestError (Store W) (Text × Text)
  download uri none = raise (cannot_parse uri)
  download uri (some (container, blob_name)) = do
    pdf_data ← on_world (sources.download_blob container blob_name)
    pure (pdf_data, uri)

  abbrev pub read_local : Text → Option Text → Exec IngestError (Store W) (Text × Text)
  read_local path none = raise (file_not_found path)
  read_local path (some pdf_data) = pure (pdf_data, [])

  -- `if input.blob_uri` is false for an empty one, too.
  abbrev pub given_uri : Option Text → Text
  given_uri none = []
  given_uri (some uri) = uri

  -- The bytes of the PDF, and the URI if there is one already.
  unfoldable pub acquire_pdf : IngestInput → Exec IngestError (Store W) (Text × Text)
  unfolding parse_blob_uri
  acquire_pdf input =
      let uri = given_uri input.blob_uri in
      if is_empty uri
      then read_local input.source_path (sources.read_file input.source_path)
      else download uri (parse_blob_uri sources.url_path uri)

  abbrev pub from_outcome : {A : Type 0} → Outcome IngestError A → Exec IngestError (Store W) A
  from_outcome o s = (o, s)

  abbrev pub as_existing : String → Book → IngestOutput
  as_existing hash b = record {
    book_id = b.id;
    source_hash = hash;
    source_blob_uri = b.source_blob_uri;
    page_count = b.page_count;
    already_existed = true;
  }

  -- A book that is not there yet; `id` is its fresh id.
  unfoldable pub register :
      IngestInput → String → Text → Text → Exec IngestError (Store W) IngestOutput
  unfolding create_book
  register input id pdf_data uri = do
    page_count ← from_outcome (sources.count_pages pdf_data)
    source_blob_uri ←
        if is_empty uri
        then on_world (sources.upload_pdf (sources.sha256 pdf_data) pdf_data)
        else pure uri
    create_book (record {
      id = id;
      title = input.title;
      source_hash = sources.sha256 pdf_data;
      source_blob_uri = source_blob_uri;
      page_count = page_count;
    })
    pure (record {
      book_id = id;
      source_hash = sources.sha256 pdf_data;
      source_blob_uri = source_blob_uri;
      page_count = page_count;
      already_existed = false;
    })

  abbrev pub dedup :
      IngestInput → String → Text → Text → Option Book → Exec IngestError (Store W) IngestOutput
  dedup input id pdf_data uri none = register input id pdf_data uri
  dedup input id pdf_data uri (some b) = pure (as_existing (sources.sha256 pdf_data) b)

  unfoldable pub run : IngestInput → String → Exec IngestError (Store W) IngestOutput
  unfolding acquire_pdf register get_book_by_hash
  run input id = do
    pdf ← acquire_pdf input
    existing_book ← (λ s. (ok (get_book_by_hash (sources.sha256 pdf.0) s.books), s))
    dedup input id pdf.0 pdf.1 existing_book
