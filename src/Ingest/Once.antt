-- ===== src/Ingest/Once.antt =====
-- The table of books behind a run of src/transpose/pipeline/ingest.py, and a PDF that is given twice.
use transpose.Prelude.{
  sym, ◌∙◌, ◌≡◌, ◌⊎◌, inl, inr, refl, ap, String, Bool, true, false, Option, none, some, List, [],
  ◌∷◌, eq_refl, Bool-cases, if◌then◌else◌,
}
use transpose.Text.{Text, is_empty}
use transpose.Exec.{Outcome, ok, raised, Exec, resume, ◌>>=◌}
use transpose.Exec.Triple.{Ends, Ends-weaken, Triple, Triple-bind, Triple-pure}
use transpose.Ingest.{
  on_world, read_local, download, given_uri, from_outcome, IngestError, IngestInput, Book,
  IngestOutput, Sources, Store, get_book_by_hash, acquire_pdf, create_book, insert_book, register,
  run, as_existing, dedup,
}

-- What a run on a PDF with this hash leaves when it returns: the book of the output is the one that is found by the hash,
-- and nothing else of the table changed.
pub record Ingested {W : Type 0} (hash : String) (from : Store W) (out : IngestOutput)
    (to : Store W) : Type 0 where
  pub hashed : out.source_hash ≡ hash
  pub found :
      (b : Book) × (get_book_by_hash out.source_hash to.books ≡ some b)
      × (b.id ≡ out.book_id)
      × (b.source_blob_uri ≡ out.source_blob_uri)
      × (b.page_count ≡ out.page_count)
  pub added :
      ((out.already_existed ≡ true) × (to.books ≡ from.books))
      ⊎ ((out.already_existed ≡ false)
          × ((get_book_by_hash out.source_hash from.books ≡ none)
              × ((b : Book) × (to.books ≡ b ∷ from.books))))

module _ {W : Type 0} (sources : Sources W) (from : Store W) where
  abbrev Same : Store W → Type 0
  Same s = s.books ≡ from.books

  ended-Same :
      {A : Type 0} (s : Store W) (o : Outcome IngestError A) (w : W)
      → Same s
      → Ends (λ a. Same) (λ e. Same) (o, record s { world = w })
  ended-Same s (ok a) w h = h
  ended-Same s (raised e) w h = h

  on_world-Same :
      {A : Type 0} (op : Exec IngestError W A)
      → Triple Same (on_world sources op) (λ a. Same) (λ e. Same)
  on_world-Same op = record { at = λ s h. ended-Same s (op s.world).0 (op s.world).1 h }

  Triple-read_local :
      (path : Text) (o : Option Text)
      → Triple Same (read_local sources path o) (λ p. Same) (λ e. Same)
  Triple-read_local path none = record { at = λ s h. h }
  Triple-read_local path (some d) = record { at = λ s h. h }

  Triple-download :
      (uri : Text) (o : Option (Text × Text))
      → Triple Same (download sources uri o) (λ p. Same) (λ e. Same)
  Triple-download uri none = record { at = λ s h. h }
  Triple-download uri (some (c, b)) =
      Triple-bind (on_world-Same (sources.download_blob c b)) λ d. Triple-pure (d, uri) λ s h. h

  Triple-acquire_pdf :
      (input : IngestInput) → Triple Same (acquire_pdf sources input) (λ p. Same) (λ e. Same)
  unfolding acquire_pdf
  Triple-acquire_pdf input = elim (Bool-cases (is_empty (given_uri sources input.blob_uri))) [
    | inl e ↦ rw e (Triple-read_local input.source_path _)
    | inr e ↦ rw e (Triple-download _ _)
  ]

  Triple-uri :
      (b : Bool) (uri pdf_data : Text)
      → Triple Same
          (if b
            then on_world sources (sources.upload_pdf (sources.sha256 pdf_data) pdf_data)
            else (λ s. (ok uri, s)))
          (λ u. Same)
          (λ e. Same)
  Triple-uri true uri pdf_data =
      on_world-Same (sources.upload_pdf (sources.sha256 pdf_data) pdf_data)
  Triple-uri false uri pdf_data = record { at = λ s h. h }

  Triple-from_outcome :
      {A : Type 0} (o : Outcome IngestError A)
      → Triple Same (from_outcome sources o) (λ a. Same) (λ e. Same)
  Triple-from_outcome (ok a) = record { at = λ s h. h }
  Triple-from_outcome (raised e) = record { at = λ s h. h }

  found_first : (b : Book) (bs : List Book) → get_book_by_hash b.source_hash (b ∷ bs) ≡ some b
  unfolding get_book_by_hash
  found_first b bs = rw (eq_refl b.source_hash) refl

  insert-Ends :
      (b : Book) (s : Store W) (o : Option Book)
      → o ≡ none
      → Same s
      → Ends (λ u to. to.books ≡ b ∷ from.books) (λ e. Same) (insert_book sources b o s)
  insert-Ends b s none e h = ap (λ l. b ∷ l) h
  insert-Ends b s (some c) e h = cc

  create-Ends :
      (b : Book) (s : Store W)
      → get_book_by_hash b.source_hash from.books ≡ none
      → Same s
      → Ends (λ u to. to.books ≡ b ∷ from.books) (λ e. Same) (create_book sources b s)
  unfolding create_book
  create-Ends b s free h =
      let still_free : get_book_by_hash b.source_hash s.books ≡ none =
        ap (get_book_by_hash b.source_hash) h ∙ free in
      insert-Ends b s (get_book_by_hash b.source_hash s.books) still_free h

  Triple-register :
      (input : IngestInput) (id : String) (pdf_data uri : Text)
      → get_book_by_hash (sources.sha256 pdf_data) from.books ≡ none
      → Triple Same
          (register sources input id pdf_data uri)
          (Ingested (sources.sha256 pdf_data) from)
          (λ e. Same)
  unfolding register
  Triple-register input id pdf_data uri free =
      Triple-bind (Triple-from_outcome (sources.count_pages pdf_data)) λ n.
        Triple-bind (Triple-uri (is_empty uri) uri pdf_data) λ u.
          Triple-bind
            {Q = λ _ to.
              to.books
              ≡ record {
                id = id;
                title = input.title;
                source_hash = sources.sha256 pdf_data;
                source_blob_uri = u;
                page_count = n;
              }
                ∷ from.books}
            (record { at = λ s h. create-Ends _ s free h })
            λ _. Triple-pure _ λ s e. record {
              hashed = refl;
              found = (
                _,
                ap (get_book_by_hash (sources.sha256 pdf_data)) e ∙ found_first _ from.books,
                refl,
                refl,
                refl,
              );
              added = inr (refl, (free, (_, e)));
            }

  Triple-dedup :
      (input : IngestInput) (id : String) (pdf_data uri : Text) (o : Option Book)
      → get_book_by_hash (sources.sha256 pdf_data) from.books ≡ o
      → Triple Same
          (dedup sources input id pdf_data uri o)
          (Ingested (sources.sha256 pdf_data) from)
          (λ e. Same)
  Triple-dedup input id pdf_data uri none e = Triple-register input id pdf_data uri e
  Triple-dedup input id pdf_data uri (some b) e = Triple-pure _ λ s h. record {
    hashed = refl;
    found = (b, ap (get_book_by_hash (sources.sha256 pdf_data)) h ∙ e, refl, refl, refl);
    added = inl (refl, h);
  }

  -- The run goes on with these bytes, which were read or downloaded.
  abbrev pub IngestsPdf : IngestInput → IngestOutput → Store W → Type 0
  IngestsPdf input out to =
      (pdf_data : Text) × (uri : Text) × (mid : Store W) × (acquire_pdf sources input from
        ≡ (ok (pdf_data, uri), mid))
      × Ingested (sources.sha256 pdf_data) from out to

  with_pdf :
      (input : IngestInput) (id : String) (pdf_data uri : Text)
      → Triple Same
          ((λ (s : Store W). (ok (get_book_by_hash (sources.sha256 pdf_data) s.books), s))
            >>= λ existing_book. dedup sources input id pdf_data uri existing_book)
          (Ingested (sources.sha256 pdf_data) from)
          (λ e. Same)
  with_pdf input id pdf_data uri =
      Triple-bind {Q = λ o s. Same s × (get_book_by_hash (sources.sha256 pdf_data) from.books ≡ o)}
        (record { at = λ s h. (h, ap (get_book_by_hash (sources.sha256 pdf_data)) (sym h)) })
        λ o. record { at = λ s h. (Triple-dedup input id pdf_data uri o h.1).at s h.0 }

  with_acquired :
      (input : IngestInput) (id : String) (r : Outcome IngestError (Text × Text) × Store W)
      → acquire_pdf sources input from ≡ r
      → Ends (λ p. Same) (λ e. Same) r
      → Ends
          (IngestsPdf input)
          (λ e. Same)
          (resume r λ pdf.
            (λ (s : Store W). (ok (get_book_by_hash (sources.sha256 pdf.0) s.books), s))
            >>= λ existing_book. dedup sources input id pdf.0 pdf.1 existing_book)
  with_acquired input id (ok (pdf_data, uri), mid) e h =
      Ends-weaken {E = IngestError} {S = Store W} {A = IngestOutput}
        {Q = Ingested (sources.sha256 pdf_data) from} {Q' = IngestsPdf input} {R = λ e. Same}
        {R' = λ e. Same} _ (λ out to i. (pdf_data, uri, mid, e, i)) (λ x s k. k)
        ((with_pdf input id pdf_data uri).at mid h)
  with_acquired input id (raised x, mid) e h = h

  -- A run that returns read or downloaded a PDF; its output has the SHA-256 of these bytes, it found its book by this hash,
  -- and it changed nothing, or added just this one to a table that had no book of the hash. A run that raises changed no
  -- book.
  pub run_ingests :
      (input : IngestInput) (id : String)
      → Ends (IngestsPdf input) (λ e. Same) (run sources input id from)
  unfolding run
  run_ingests input id =
      unfold ◌>>=◌ in
      with_acquired input id (acquire_pdf sources input from) refl
        ((Triple-acquire_pdf input).at from refl)

ended :
    {W : Type 0} (sources : Sources W) (from to : Store W) (input : IngestInput)
    (out : IngestOutput) (r : Outcome IngestError IngestOutput × Store W)
    → r ≡ (ok out, to)
    → Ends (IngestsPdf sources from input) (λ e s. s.books ≡ from.books) r
    → IngestsPdf sources from input out to
ended sources from to input out r e h = rw e at h

-- What was acquired is one.
abbrev bytes_of : {W : Type 0} → Text → Outcome IngestError (Text × Text) × Store W → Text
bytes_of default (ok p, s) = p.0
bytes_of default (raised e, s) = default

acquired_books :
    {W : Type 0} (from to : Store W) (p : Text × Text)
    (r : Outcome IngestError (Text × Text) × Store W)
    → r ≡ (ok p, to)
    → Ends (λ p s. s.books ≡ from.books) (λ e s. s.books ≡ from.books) r
    → to.books ≡ from.books
acquired_books from to p r e h = rw e at h

-- The bytes that a run ingested are not ingested again: when a later run, on the table that the first left, reads or
-- downloads the same bytes, as a file or as a blob, it gets the same book, and the table stays as it is.
pub ingested_once :
    {W : Type 0} (sources : Sources W) (from mid to later : Store W) (input again : IngestInput)
    (id fresh : String) (out : IngestOutput) (pdf_data first_uri uri : Text)
    → acquire_pdf sources input from ≡ (ok (pdf_data, first_uri), mid)
    → run sources input id from ≡ (ok out, to)
    → acquire_pdf sources again to ≡ (ok (pdf_data, uri), later)
    → (next : IngestOutput) × (run sources again fresh to ≡ (ok next, later))
      × (next.book_id ≡ out.book_id)
      × (next.already_existed ≡ true)
      × (later.books ≡ to.books)
unfolding run ◌>>=◌
ingested_once sources from mid to later input again id fresh out pdf_data first_uri uri read ran
      acquired =
    let (bytes, _, _, read_here, first) =
      ended sources from to input out (run sources input id from) ran
        (run_ingests sources from input id) in
    let same_bytes : sources.sha256 pdf_data ≡ out.source_hash =
      ap sources.sha256 (ap (bytes_of []) (sym read ∙ read_here)) ∙ sym first.hashed in
    let kept : later.books ≡ to.books =
      acquired_books to later (pdf_data, uri) (acquire_pdf sources again to) acquired
        ((Triple-acquire_pdf sources to again).at to refl) in
    let (b, at_hash, same_id, _, _) = first.found in
    let at_hash' : get_book_by_hash out.source_hash to.books ≡ some b = at_hash in
    let found : get_book_by_hash (sources.sha256 pdf_data) later.books ≡ some b =
      ap (λ h. get_book_by_hash h later.books) same_bytes
      ∙ (ap (get_book_by_hash out.source_hash) kept ∙ at_hash') in
    (
      as_existing sources (sources.sha256 pdf_data) b,
      rw (acquired, found) refl,
      same_id,
      refl,
      kept,
    )
