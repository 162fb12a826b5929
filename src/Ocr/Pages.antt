-- ===== src/Ocr/Pages.antt =====
-- What a run of src/transpose/pipeline/ocr.py adds, and what a second one adds.
use transpose.Prelude.{
  ℕ, ◌*◌, ◌≤◌, ◌≡◌, ◌⊎◌, inl, inr, refl, ◌∙◌, String, Bool, true, false, ◌||◌, some, List, [], ◌∷◌,
  ◌++◌, All, ap, sym, Option, none, append-nil, ◌&&◌, All-weaken, max, length, select, arith,
  Bool-cases, append₃-eq-nil_iff, if◌then◌else◌,
}
use transpose.Text.{Text, strip, is_empty, is_empty_iff, count_if, is_devanagari}
use transpose.OcrClient.Merged.{map-append}
use mathlib.Core.Path.{subst}
use transpose.Exec.{Exec, Outcome, ok, raised, raise, modify, ◌>>=◌}
use transpose.Exec.Triple.{Ends, Triple, Triple-weaken, Triple-bind}
use transpose.Ocr.{
  OcrPage, replacement_count, length_issues, script_issues, decode_issues, validate_page,
  check_page, mem, new_pages, numbers_of, OcrError, unique_violation, OcrReplies, OcrStore, answer,
  known_book, unique, create_pages, delete_forced, save_pages, run,
}

-- A page that needs no review: it has ten characters, a Hindi page that is not blank has Devanagari, and at most one
-- character in twenty is U+FFFD.
pub record IsReadable (is_hindi : Bool) (text : Text) : Type 0 where
  pub long_enough : 10 ≤ length (strip text)
  pub in_script : (is_hindi ≡ false) ⊎ (1 ≤ count_if is_devanagari text)
  pub legible : 20 * replacement_count text ≤ max (length text) 1

is_empty-long : (t : Text) → 10 ≤ length t → is_empty t ≡ false
is_empty-long [] h = absurd (omega (arith, h))
is_empty-long (c ∷ t) h = refl

validate_page-IsReadable :
    (is_hindi : Bool) (text : Text) → validate_page is_hindi text ≡ [] → IsReadable is_hindi text
unfolding validate_page length_issues script_issues decode_issues
validate_page-IsReadable is_hindi text h =
    let (a, b, c) =
      (append₃-eq-nil_iff (length_issues text) (script_issues is_hindi text) (decode_issues text)).0
        h in
    let long : 10 ≤ length (strip text) = ground (arith, a) in
    record {
      long_enough = long;
      in_script = elim (Bool-cases is_hindi) [
        | inr e ↦ inl e
        | inl e ↦
            inr (let nonempty = is_empty-long (strip text) long in ground (arith, b, nonempty, e))
      ];
      legible = ground (arith, c);
    }

mem-append : (n : ℕ) (xs ys : List ℕ) → mem n (xs ++ ys) ≡ (mem n xs || mem n ys)
mem-append n [] ys = refl
mem-append n (x ∷ xs) ys = ground (arith, mem-append n xs ys)

module _ (is_hindi : Bool) (existing : List ℕ) where
  new_pages-known :
      (p : OcrPage) (ps : List OcrPage)
      → mem p.page_number existing ≡ true
      → new_pages is_hindi existing (p ∷ ps) ≡ new_pages is_hindi existing ps
  unfolding new_pages select
  new_pages-known p ps e = rw e refl

  new_pages-unknown :
      (p : OcrPage) (ps : List OcrPage)
      → mem p.page_number existing ≡ false
      → new_pages is_hindi existing (p ∷ ps)
        ≡ check_page is_hindi p ∷ new_pages is_hindi existing ps
  unfolding new_pages select
  new_pages-unknown p ps e = rw e refl

  abbrev InTable : List OcrPage → OcrPage → Type 0
  InTable new p = (mem p.page_number existing || mem p.page_number (numbers_of new)) ≡ true

  -- Every page of the source is in the table or among the new pages.
  All-InTable : (source : List OcrPage) → All (InTable (new_pages is_hindi existing source)) source
  unfolding check_page
  All-InTable [] = tt
  All-InTable (p ∷ ps) = elim (Bool-cases (mem p.page_number existing)) [
    | inl e ↦ (rw e refl, All-weaken ps (λ q h. rw (new_pages-known p ps e) h) (All-InTable ps))
    | inr e ↦ (
      rw (e, new_pages-unknown p ps e) (ground arith),
      All-weaken ps (λ q h. rw (new_pages-unknown p ps e) (ground (arith, h))) (All-InTable ps),
    )
  ]

  new_pages-eq-nil :
      (source : List OcrPage)
      → All (λ p. mem p.page_number existing ≡ true) source
      → new_pages is_hindi existing source ≡ []
  unfolding new_pages select
  new_pages-eq-nil [] h = refl
  new_pages-eq-nil (p ∷ ps) (h, hs) = new_pages-known p ps h ∙ new_pages-eq-nil ps hs

  abbrev Reviewed : OcrPage → Type 0
  Reviewed p = (p.needs_review ≡ true) ⊎ IsReadable is_hindi p.raw_text

  Reviewed-check_page : (p : OcrPage) → Reviewed (check_page is_hindi p)
  unfolding check_page
  Reviewed-check_page p = elim (Bool-cases (is_empty (validate_page is_hindi p.raw_text))) [
    | inl e ↦ inr (
        validate_page-IsReadable is_hindi p.raw_text
          ((is_empty_iff (validate_page is_hindi p.raw_text)).0 e))
    | inr e ↦ inl (ground (arith, e))
  ]

  All-Reviewed : (source : List OcrPage) → All Reviewed (new_pages is_hindi existing source)
  unfolding new_pages select
  All-Reviewed [] = tt
  All-Reviewed (p ∷ ps) = elim (Bool-cases (mem p.page_number existing)) [
    | inl e ↦ rw e (All-Reviewed ps)
    | inr e ↦ rw e (Reviewed-check_page p, All-Reviewed ps)
  ]

Triple-answer :
    {A : Type 0} {P : OcrStore → Type 0} (o : Outcome OcrError A)
    → Triple P (answer o) (λ a s. P s × (o ≡ ok a)) (λ e. P)
Triple-answer (ok a) = record { at = λ s h. (h, refl) }
Triple-answer (raised e) = record { at = λ s h. h }

Triple-known_book :
    {P : OcrStore → Type 0} (o : Option ℕ) → Triple P (known_book o) (λ n. P) (λ e. P)
Triple-known_book none = record { at = λ s h. h }
Triple-known_book (some n) = record { at = λ s h. h }

module _ (replies : OcrReplies) (force is_hindi : Bool) (from : OcrStore) where
  -- The rows are those from before, or none are left by a run that is forced.
  abbrev Kept : OcrStore → Type 0
  Kept s = (s.pages ≡ from.pages) ⊎ ((force ≡ true) × (s.pages ≡ []))

  -- They are followed by new ones, and every page of the source has its row.
  pub record Covered (new rows : List OcrPage) : Type 0 where
    pub source : List OcrPage
    pub given : replies.source ≡ ok source
    pub added : (rows ≡ from.pages ++ new) ⊎ ((force ≡ true) × (rows ≡ new))
    pub covered : All (λ p. mem p.page_number (numbers_of rows) ≡ true) source
    pub reviewed : All (λ p. (p.needs_review ≡ true) ⊎ IsReadable is_hindi p.raw_text) new

  -- What a run that raises leaves.
  abbrev pub Unfinished : OcrStore → Type 0
  Unfinished s = Kept s ⊎ ((new : List OcrPage) × Covered new s.pages)

  covering :
      (source new : List OcrPage) (s : OcrStore)
      → replies.source ≡ ok source
      → Kept s
      → new_pages is_hindi (numbers_of s.pages) source ≡ new
      → Covered new (s.pages ++ new)
  covering source new s g k e = record {
    source = source;
    given = g;
    added = elim k [
      | inl h ↦ inl (ap (λ l. l ++ new) h)
      | inr (f, h) ↦ inr (f, ap (λ l. l ++ new) h)
    ];
    covered =
        All-weaken source
          (λ p h.
            rw (map-append (λ p. p.page_number) s.pages new)
              (mem-append p.page_number (numbers_of s.pages) (numbers_of new) ∙ h))
          (rw (sym e) (All-InTable is_hindi (numbers_of s.pages) source));
    reviewed = rw (sym e) (All-Reviewed is_hindi (numbers_of s.pages) source);
  }

  inserted :
      (source new : List OcrPage) (s : OcrStore) (b : Bool)
      → replies.source ≡ ok source
      → Kept s
      → new_pages is_hindi (numbers_of s.pages) source ≡ new
      → Ends
          (λ u s'. Covered new s'.pages)
          (λ e. Kept)
          ((if b
              then modify (λ s'. record s' { pages = s.pages ++ new })
              else raise unique_violation)
            s)
  inserted source new s true g k e = covering source new s g k e
  inserted source new s false g k e = k

  Triple-create_pages :
      (source new : List OcrPage) (ns : List ℕ)
      → replies.source ≡ ok source
      → new_pages is_hindi ns source ≡ new
      → Triple
          (λ s. Kept s × (ns ≡ numbers_of s.pages))
          (create_pages replies.inserts new)
          (λ u s. Covered new s.pages)
          (λ e. Kept)
  unfolding create_pages
  Triple-create_pages source [] ns g e = record {
    at = λ s (k, n).
        subst (Covered []) (append-nil s.pages)
          (covering source [] s g k (ap (λ l. new_pages is_hindi l source) (sym n) ∙ e));
  }
  Triple-create_pages source (p ∷ ps) ns g e =
      Triple-bind
        (Triple-weaken (Triple-answer replies.inserts) (λ s h. h) (λ u s h. h.0) (λ x s h. h.0))
        λ u.
          unfold ◌>>=◌ in
          record {
            at = λ s (k, n).
                inserted source (p ∷ ps) s (unique (numbers_of (s.pages ++ p ∷ ps))) g k
                  (ap (λ l. new_pages is_hindi l source) (sym n) ∙ e);
          }

  after :
      {A B : Type 0} {P : OcrStore → Type 0} {Q : A → OcrStore → Type 0}
      {Q' : B → OcrStore → Type 0} {m : Exec OcrError OcrStore A} {f : A → Exec OcrError OcrStore B}
      → Triple P m Q (λ e. Kept)
      → ((a : A) → Triple (Q a) (f a) Q' (λ e. Unfinished))
      → Triple P (m >>= f) Q' (λ e. Unfinished)
  after t u = Triple-bind (Triple-weaken t (λ s h. h) (λ a s h. h) (λ e s h. inl h)) u

  Kept-answer :
      {A : Type 0} (o : Outcome OcrError A) → Triple Kept (answer o) (λ a. Kept) (λ e. Kept)
  Kept-answer o = Triple-weaken (Triple-answer o) (λ s h. h) (λ a s h. h.0) (λ e s h. h)

  Kept-delete_forced :
      (o : Outcome OcrError (Unit {0})) (b : Bool)
      → (b ≡ true → force ≡ true)
      → Triple Kept (delete_forced o b) (λ u. Kept) (λ e. Kept)
  unfolding delete_forced
  Kept-delete_forced o true f =
      Triple-bind (Kept-answer o) λ u. record { at = λ s h. inr (f refl, refl) }
  Kept-delete_forced o false f = record { at = λ s h. h }

  only_forced : (b c : Bool) → (b && c) ≡ true → b ≡ true
  only_forced true c h = refl
  only_forced false c h = h

  -- What comes behind the insertion changes no row.
  Covered-answer :
      {new : List OcrPage} (o : Outcome OcrError (Unit {0}))
      → Triple (λ s. Covered new s.pages) (answer o) (λ u s. Covered new s.pages) (λ e. Unfinished)
  Covered-answer {new} o =
      Triple-weaken (Triple-answer o) (λ s h. h) (λ a s h. h.0) (λ e s h. inr (new, h))

  Triple-save_pages :
      (now : ℕ) (book_id : String) (page_count skipped : ℕ) (source : List OcrPage) (ns : List ℕ)
      → replies.source ≡ ok source
      → Triple
          (λ s. Kept s × (ns ≡ numbers_of s.pages))
          (save_pages replies now book_id page_count skipped (new_pages is_hindi ns source))
          (λ out s. Covered out.page_results s.pages)
          (λ e. Unfinished)
  unfolding save_pages
  Triple-save_pages now book_id page_count skipped source ns g =
      let new = new_pages is_hindi ns source in
      after (Triple-create_pages source new ns g refl) λ _.
        Triple-bind (Covered-answer replies.updates) λ _.
          Triple-bind {Q = λ u s. Covered new s.pages} (record { at = λ s h. h })
            λ _. Triple-bind (Covered-answer replies.progresses) λ _.
              Triple-bind {Q = λ u s. Covered new s.pages} (record { at = λ s h. h })
                λ _. record { at = λ s h. h }

  Triple-run :
      (now : ℕ) (book_id : String)
      → Triple Kept
          (run replies force is_hindi now book_id)
          (λ out s. Covered out.page_results s.pages)
          (λ e. Unfinished)
  unfolding run
  Triple-run now book_id = after (Kept-answer replies.book) λ book.
      after (Triple-known_book book) λ page_count. after (Kept-answer replies.reads) λ _.
        after {Q = λ b. Kept} (record { at = λ s h. h })
          λ has_pages.
            after (Kept-delete_forced replies.deletes _ (only_forced force has_pages)) λ _.
              after {Q = λ ns s. Kept s × (ns ≡ numbers_of s.pages)}
                (record { at = λ s h. (h, refl) })
                λ ns.
                  after
                    (Triple-weaken (Triple-answer replies.source) (λ s h. h) (λ a s h. h)
                      (λ e s h. h.0))
                    λ source. record {
                      at = λ s (h, g).
                          (Triple-save_pages now book_id page_count _ source ns g).at s h;
                    }

-- Whatever the services answer: a run that returns adds to the rows of the book, or puts in the place of all of them if it
-- is forced, the pages of its output; every page of the source has a row then, and each page of the output is flagged for
-- review or readable. A run that raises leaves the rows as they were, or none if it is forced, or, when what follows the
-- insertion fails, such as a run that returns leaves.
pub run_extracts :
    (replies : OcrReplies) (force is_hindi : Bool) (now : ℕ) (book_id : String) (from : OcrStore)
    → Ends
        (λ out to. Covered replies force is_hindi from out.page_results to.pages)
        (λ e. Unfinished replies force is_hindi from)
        (run replies force is_hindi now book_id from)
run_extracts replies force is_hindi now book_id from =
    (Triple-run replies force is_hindi from now book_id).at from (inl refl)
