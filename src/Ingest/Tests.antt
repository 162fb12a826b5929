-- ===== src/Ingest/Tests.antt =====
-- A PDF that is ingested from a file, and again from a blob; a blob's content is its name.
use transpose.Prelude.{◌++◌, ◌≡◌, refl, true, false, none, some, [], ◌∷◌}
use transpose.Text.{codes}
use transpose.Exec.{ok, ◌>>=◌}
use transpose.Exec.Triple.{Ends}
use transpose.Ingest.{IngestInput, IngestOutput, Sources, Store, run}
use transpose.Ingest.Once.{IngestsPdf, run_ingests, ingested_once}

abbrev sources : Sources (Unit {0})
sources = record {
  url_path = λ uri. uri;
  download_blob = λ container name w. (ok name, w);
  upload_pdf = λ hash pdf_data w. (ok (codes "/source/" ++ pdf_data), w);
  read_file = λ path. some path;
  sha256 = λ pdf_data. "hash";
  count_pages = λ pdf_data. ok 3;
}

abbrev no_books : Store (Unit {0})
no_books = record { books = []; world = tt }

abbrev from_file : IngestInput
from_file = record { source_path = codes "a.pdf"; title = codes "A"; blob_uri = none }

abbrev from_blob : IngestInput
from_blob = record { source_path = []; title = codes "A"; blob_uri = some (codes "/source/a.pdf") }

abbrev registered : IngestOutput
registered = record {
  book_id = "1";
  source_hash = "hash";
  source_blob_uri = codes "/source/a.pdf";
  page_count = 3;
  already_existed = false;
}

abbrev one_book : Store (Unit {0})
one_book = record {
  books =
      record {
        id = "1";
        title = codes "A";
        source_hash = "hash";
        source_blob_uri = codes "/source/a.pdf";
        page_count = 3;
      }
      ∷ [];
  world = tt;
}

run_ingests_example :
    Ends
      (IngestsPdf sources no_books from_file)
      (λ e to. to.books ≡ [])
      (run sources from_file "1" no_books)
run_ingests_example = run_ingests sources no_books from_file "1"

ingested_once_example :
    (next : IngestOutput) × (run sources from_blob "2" one_book ≡ (ok next, one_book))
    × (next.book_id ≡ "1")
    × (next.already_existed ≡ true)
    × (one_book.books ≡ one_book.books)
unfolding run ◌>>=◌
ingested_once_example =
    ingested_once sources no_books no_books one_book one_book from_file from_blob "1" "2" registered
      (codes "a.pdf") [] (codes "/source/a.pdf") refl refl refl
