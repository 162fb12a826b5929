-- ===== src/Assemble/Complete.antt =====
-- What a run of src/transpose/pipeline/assemble.py returns and stores.
use transpose.Prelude.{
  ℕ, ◌≤◌, ◌≡◌, ◌↔◌, ◌≢◌, inl, inr, refl, sym, ◌∙◌, String, Bool, true, false, Option, none, some,
  List, [], length, All, if◌then◌else◌,
}
use transpose.Text.{Text, is_blank, is_empty, strip}
use transpose.Exec.{Outcome, Exec, ok, raised, ◌>>=◌}
use transpose.Exec.Triple.{Triple, Triple-bind, Triple-pure, Triple-attempt, Triple-weaken, Ends}
use transpose.Gates.Structure.{document_structure_gate}
use transpose.Assemble.{Unicode, ChunkColumns, Translation, Item, PageRow, Glossary, BookRow}
use transpose.Assemble.Foreword.{foreword_prompt}
use transpose.Assemble.Group.{chapters_of}
use transpose.Assemble.Stage.{
  StageError, index_error, Manuscript, AssembleOutput, Context, by_reference, by_occurrence,
  foreword_of, assemble, run,
}
use transpose.Assemble.Parted.{translated_items, chapters_of_lem, chapters_of-nothing}
use transpose.Assemble.Gated.{gate_input, IsBuilt, add_chapters-IsBuilt, IsBuilt-gate}

-- The operation answers, with what is said of the answer.
abbrev pub AnswersWith : {W A : Type 0} → Exec StageError W A → (A → W → Type 0) → Type 0
AnswersWith m P = Triple (λ _. Unit {0}) m P (λ _ _. ⊥)

Ends-anything :
    {W A : Type 0} (r : Outcome StageError A × W) → Ends (λ _ _. Unit {0}) (λ _ _. Unit {0}) r
Ends-anything (ok a, s) = tt
Ends-anything (raised e, s) = tt

anything :
    {W A : Type 0} (m : Exec StageError W A)
    → Triple (λ _. Unit {0}) m (λ _ _. Unit {0}) (λ _ _. Unit {0})
anything m = record { at = λ s h. Ends-anything (m s) }

-- The reads give these rows, and a manuscript that is created is stored, also behind the new status.
pub record Serves {W : Type 0} (svc : Context W) (book_id : String) (book : BookRow)
    (chunks : List ChunkColumns) (translations : List Translation)
    (Stored : Manuscript → W → Type 0) : Type 0 where
  pub book_read : AnswersWith (svc.get_book book_id) (λ r _. r ≡ some book)
  pub chunks_read : AnswersWith (svc.get_chunks_for_book book_id) (λ r _. r ≡ chunks)
  pub translations_read :
      AnswersWith (svc.get_translations_for_book book_id) (λ r _. r ≡ translations)
  pub glossary_read : AnswersWith (svc.get_glossary_for_book book_id) (λ _ _. Unit {0})
  pub pages_read : AnswersWith (svc.get_pages_for_book book_id) (λ _ _. Unit {0})
  pub created : (m : Manuscript) → AnswersWith (svc.create_manuscript m) (λ _ w. Stored m w)
  pub kept :
      (m : Manuscript) (status : String)
      → Triple (Stored m) (svc.update_book_status book_id status) (λ _ w. Stored m w) (λ _ _. ⊥)

-- The output is built of the book, and a manuscript with the same content is stored.
pub record IsAssembled {W : Type 0} (Stored : Manuscript → W → Type 0) (out : AssembleOutput)
    (w : W) : Type 0 where
  pub manuscript : Manuscript
  pub stored : Stored manuscript w
  pub same_id : manuscript.id ≡ out.manuscript_id
  pub same_title : manuscript.title ≡ out.title
  pub same_chapters : manuscript.chapters ≡ out.chapters
  pub same_toc : manuscript.table_of_contents ≡ out.table_of_contents
  pub same_foreword : manuscript.foreword ≡ out.foreword
  pub built : IsBuilt out.chapters out.table_of_contents
  pub gated : ((document_structure_gate (gate_input out)).passed ≡ true) ↔ (
      (is_blank out.title ≡ false)
      × All (λ t. 3 ≤ length (strip t)) (gate_input out).table_of_contents)

AnswersWith-if :
    {W A : Type 0} {P : A → W → Type 0} (b : Bool) {m n : Exec StageError W A}
    → AnswersWith m P
    → AnswersWith n P
    → AnswersWith (if b then m else n) P
AnswersWith-if true h k = h
AnswersWith-if false h k = k

none-some {ℓ} : {A : Type ℓ} {a : A} → none ≡ some a → ⊥
none-some e = cc

-- A read, and what follows for an answer of which the equation holds.
asked :
    {W A B : Type 0} {m : Exec StageError W A} {P : A → Type 0} {f : A → Exec StageError W B}
    {Q : B → W → Type 0} {R : StageError → W → Type 0}
    → AnswersWith m (λ a _. P a)
    → ((a : A) → P a → Triple (λ _. Unit {0}) (f a) Q R)
    → Triple (λ _. Unit {0}) (m >>= f) Q R
asked t u =
    Triple-bind (Triple-weaken t (λ s h. h) (λ a s h. h) (λ e s h. absurd h))
      λ a. record { at = λ s p. (u a p).at s tt }

module _ (unicode : Unicode) {W : Type 0} (svc : Context W) where
  foreword_of-answers :
      (title : Text) (glossary : Option Glossary) (untranslated : ℕ)
      → AnswersWith (foreword_of unicode svc title glossary untranslated) (λ _ _. Unit {0})
  unfolding foreword_of
  foreword_of-answers title none untranslated = Triple-pure none (λ s h. tt)
  foreword_of-answers title (some g) untranslated =
      AnswersWith-if (is_empty g.entries) (Triple-pure none (λ s h. tt)) (
        Triple-attempt
          (Triple-bind (anything (svc.chat (foreword_prompt title (by_occurrence g.entries))))
            (λ answer. Triple-pure _ (λ s h. tt)))
          (λ e. Triple-pure none (λ s h. tt)))

  module _ (book_id : String) (book : BookRow) (chunks : List ChunkColumns)
      (translations : List Translation) (Stored : Manuscript → W → Type 0)
      (serves : Serves svc book_id book chunks translations Stored) where
    assemble-Assembled :
        (manuscript_id : String) (glossary : Option Glossary) (pages : List PageRow)
        (chapters_data : List (Text × List Item))
        → Triple
            (λ _. Unit {0})
            (assemble unicode svc manuscript_id book_id book chunks translations glossary pages
              (some chapters_data))
            (IsAssembled Stored)
            (λ _ _. ⊥)
    unfolding assemble
    assemble-Assembled manuscript_id glossary pages chapters_data =
        Triple-bind (foreword_of-answers _ glossary _) λ foreword.
          Triple-bind (Triple-weaken (serves.created _) (λ s h. tt) (λ a s h. h) (λ e s h. h)) λ _.
            Triple-bind (serves.kept _ "assembled") λ _. Triple-pure _ λ s stored. record {
              manuscript = _;
              stored = stored;
              same_id = refl;
              same_title = refl;
              same_chapters = refl;
              same_toc = refl;
              same_foreword = refl;
              built = add_chapters-IsBuilt unicode pages (by_reference chapters_data);
              gated =
                  IsBuilt-gate _ _ _
                    (add_chapters-IsBuilt unicode pages (by_reference chapters_data));
            }

    from_sections :
        (manuscript_id : String) (glossary : Option Glossary) (pages : List PageRow)
        → Triple
            (λ _. Unit {0})
            (assemble unicode svc manuscript_id book_id book chunks translations glossary pages
              (chapters_of unicode chunks translations))
            (λ out w. IsAssembled Stored out w × (translated_items translations chunks ≢ []))
            (λ e _. (e ≡ index_error) × (translated_items translations chunks ≡ []))
    unfolding assemble
    from_sections manuscript_id glossary pages =
        elim (chapters_of_lem unicode chunks translations) [
          | inl (empty, e) ↦ rw e (record { at = λ s h. (refl, empty) })
          | inr (chapters_data, e, rest) ↦ rw e (
              Triple-weaken (assemble-Assembled manuscript_id glossary pages chapters_data)
                (λ s h. h)
                (λ out w h. (
                  h,
                  λ empty.
                      absurd (
                        none-some
                          (sym (chapters_of-nothing unicode chunks translations empty) ∙ e)),
                ))
                (λ _ _ h. absurd h))
        ]

-- If the reads answer and a manuscript can be stored, a run stores a manuscript and returns its content, with
-- the chapters numbered from 1 and an entry of level 1 for each in order, whatever the model does; the
-- structure gate passes it exactly when its title is not blank and each entry has three characters. Or no chunk
-- has a translation, and the run raises an `IndexError`.
pub run-IsAssembled :
    (unicode : Unicode) {W : Type 0} (svc : Context W) (manuscript_id book_id : String)
    (book : BookRow) (chunks : List ChunkColumns) (translations : List Translation)
    (Stored : Manuscript → W → Type 0)
    → Serves svc book_id book chunks translations Stored
    → Triple
        (λ _. Unit {0})
        (run unicode svc manuscript_id book_id)
        (λ out w. IsAssembled Stored out w × (translated_items translations chunks ≢ []))
        (λ e _. (e ≡ index_error) × (translated_items translations chunks ≡ []))
unfolding run
run-IsAssembled unicode svc manuscript_id book_id book chunks translations Stored serves =
    asked serves.book_read λ answer found. rw found (
      asked {P = λ b. b ≡ book} (Triple-pure book (λ s h. refl)) λ b same. rw same (
        asked serves.chunks_read λ cs read. rw read (
          asked serves.translations_read λ ts read. rw read (
            asked serves.glossary_read λ glossary _. asked serves.pages_read λ pages _.
              from_sections unicode svc book_id book chunks translations Stored serves manuscript_id
                glossary pages))))
