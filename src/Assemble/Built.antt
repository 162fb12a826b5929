-- ===== src/Assemble/Built.antt =====
-- The chapters and the table of contents that the loops of src/transpose/pipeline/assemble.py build.
use transpose.Prelude.{
  ℕ, suc, ◌≤◌, ◌≡◌, refl, sym, ap, ◌∙◌, Bool, true, false, none, some, List, [], ◌∷◌, ◌++◌, map,
  select, range, length, append-nil, append_assoc, arith, if◌then◌else◌, Option,
}
use transpose.Text.{Text, strip}
use transpose.Chunk.Paragraphs.{paragraphs_of}
use transpose.Assemble.{Unicode, PageRow, Item, TocEntry, Chapter}
use transpose.Assemble.Render.{
  Assembly, images_on, pages_of_item, emit, emit_all, shown, count_untranslated, add_heading,
  render_paragraph, render_paragraphs, add_item, add_items, add_chapter, add_chapters,
}

abbrev pub is_none {ℓ} : {A : Type ℓ} → Option A → Bool
is_none none = true
is_none (some _) = false

-- The entries of level 1.
abbrev pub top_entries : List TocEntry → List TocEntry
top_entries toc = select (λ e. is_none e.anchor) toc

abbrev pub top_entry : Chapter → TocEntry
top_entry c = record { chapter = c.number; title = c.title; anchor = none }

select-append {ℓ} :
    {A : Type ℓ} (p : A → Bool) (xs ys : List A) → select p (xs ++ ys) ≡ select p xs ++ select p ys
unfolding select
select-append p [] ys = refl
select-append p (x ∷ xs) ys = ground (arith, select-append p xs ys)

pub length-select {ℓ} : {A : Type ℓ} (p : A → Bool) (xs : List A) → length (select p xs) ≤ length xs
unfolding select
length-select p [] = omega arith
length-select p (x ∷ xs) = ground (arith, length-select p xs)

emit-toc : (key : Text) (a : Assembly) → (emit key a).toc ≡ a.toc
unfolding emit
emit-toc key a = ground arith

emit_all-toc : (keys : List Text) (a : Assembly) → (emit_all keys a).toc ≡ a.toc
unfolding emit_all
emit_all-toc [] a = refl
emit_all-toc (k ∷ ks) a = emit_all-toc ks (emit k a) ∙ emit-toc k a

tops-heading :
    (b : Bool) (toc : List TocEntry) (e : TocEntry)
    → is_none e.anchor ≡ false
    → top_entries (if b then toc else toc ++ e ∷ []) ≡ top_entries toc
unfolding select
tops-heading true toc e h = refl
tops-heading false toc e h =
    select-append (λ e. is_none e.anchor) toc (e ∷ []) ∙ rw h (append-nil (top_entries toc))

tops-if :
    (b : Bool) (x y : Assembly) (tops : List TocEntry)
    → top_entries x.toc ≡ tops
    → top_entries y.toc ≡ tops
    → top_entries (if b then x else y).toc ≡ tops
tops-if true x y tops h k = h
tops-if false x y tops h k = k

module _ (unicode : Unicode) (pages : List PageRow) where
  -- No entry of level 1 comes or goes.
  abbrev SameTops : Assembly → Assembly → Type 0
  SameTops a b = top_entries b.toc ≡ top_entries a.toc

  add_heading-SameTops :
      (number : ℕ) (text : Text) (a : Assembly)
      → SameTops a (add_heading unicode pages number text a)
  unfolding add_heading
  add_heading-SameTops number text a = tops-heading _ a.toc _ refl

  render_paragraph-SameTops :
      (number : ℕ) (text : Text) (a : Assembly)
      → SameTops a (render_paragraph unicode pages number text a)
  unfolding render_paragraph
  render_paragraph-SameTops number [] a = refl
  render_paragraph-SameTops number (c ∷ s) a =
      tops-if _ _ _ (top_entries a.toc) (add_heading-SameTops number (c ∷ s) a)
        (tops-if _ _ _ (top_entries a.toc) refl refl)

  render_paragraphs-SameTops :
      (number : ℕ) (ps : List Text) (a : Assembly)
      → SameTops a (render_paragraphs unicode pages number ps a)
  unfolding render_paragraphs
  render_paragraphs-SameTops number [] a = refl
  render_paragraphs-SameTops number (p ∷ ps) a =
      render_paragraphs-SameTops number ps (render_paragraph unicode pages number (strip p) a)
      ∙ render_paragraph-SameTops number (strip p) a

  add_item-SameTops :
      (number item_idx : ℕ) (item : Item) (a : Assembly)
      → SameTops a (add_item unicode pages number item_idx item a)
  unfolding add_item
  add_item-SameTops number item_idx item a =
      render_paragraphs-SameTops number (paragraphs_of (shown unicode pages item_idx item)) (
        count_untranslated item.translation.translated_text
          (emit_all (images_on pages (pages_of_item item)) a))
      ∙ ap top_entries (emit_all-toc (images_on pages (pages_of_item item)) a)

  add_items-SameTops :
      (number item_idx : ℕ) (items : List Item) (a : Assembly)
      → SameTops a (add_items unicode pages number item_idx items a)
  unfolding add_items
  add_items-SameTops number item_idx [] a = refl
  add_items-SameTops number item_idx (item ∷ items) a =
      add_items-SameTops number (suc item_idx) items (add_item unicode pages number item_idx item a)
      ∙ add_item-SameTops number item_idx item a

  pub add_chapters-numbered :
      (number : ℕ) (chapters : List (Text × List Item)) (a : Assembly)
      → map (λ c. c.number) (add_chapters unicode pages number chapters a).0
        ≡ range number (length chapters)
  unfolding add_chapters add_chapter range
  add_chapters-numbered number [] a = refl
  add_chapters-numbered number ((ref, items) ∷ rest) a =
      ap (λ ns. number ∷ ns)
        (add_chapters-numbered (suc number) rest (add_chapter unicode pages number ref items a).1)

  add_chapter-top_entries :
      (number : ℕ) (ref : Text) (items : List Item) (a : Assembly)
      → top_entries (add_chapter unicode pages number ref items a).1.toc
        ≡ top_entries a.toc ++ top_entry (add_chapter unicode pages number ref items a).0 ∷ []
  unfolding add_chapter
  add_chapter-top_entries number ref items a =
      select-append (λ e. is_none e.anchor)
        (add_items unicode pages number 0 items
          (record a { blocks = []; sub_heading_idx = 0; seen_sub_headings = [] })).toc
        (top_entry (add_chapter unicode pages number ref items a).0 ∷ [])
      ∙ ap (λ top. top ++ top_entry (add_chapter unicode pages number ref items a).0 ∷ [])
          (add_items-SameTops number 0 items
            (record a { blocks = []; sub_heading_idx = 0; seen_sub_headings = [] }))

  -- The chapters' entries follow those that are there.
  pub add_chapters-top_entries :
      (number : ℕ) (chapters : List (Text × List Item)) (a : Assembly)
      → top_entries (add_chapters unicode pages number chapters a).1.toc
        ≡ top_entries a.toc ++ map top_entry (add_chapters unicode pages number chapters a).0
  unfolding add_chapters
  add_chapters-top_entries number [] a = sym (append-nil _)
  add_chapters-top_entries number ((ref, items) ∷ rest) a =
      add_chapters-top_entries (suc number) rest (add_chapter unicode pages number ref items a).1
      ∙ (ap
            (λ top.
              top
              ++ map top_entry
                  (add_chapters unicode pages (suc number) rest
                    (add_chapter unicode pages number ref items a).1).0)
            (add_chapter-top_entries number ref items a)
          ∙ append_assoc (top_entries a.toc)
              (top_entry (add_chapter unicode pages number ref items a).0 ∷ []) _)
