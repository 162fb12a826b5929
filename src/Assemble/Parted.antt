-- ===== src/Assemble/Parted.antt =====
-- How the chapters of src/transpose/pipeline/assemble.py part the translated chunks, and the order they stand in.
use transpose.Prelude.{
  ◌||◌, ◌≡◌, ◌⊎◌, refl, sym, ap, ◌∙◌, Option, none, some, List, [], ◌∷◌, map, select, take, All,
  All-weaken, length, leb, ◌==◌, list_eq_iff, Bool-cases, inl, inr,
}
use mathlib.Core.Path.{subst}
use transpose.Text.{Text}
use transpose.Assemble.{Unicode, ChunkColumns, Translation, Item}
use transpose.Assemble.Patterns.{lines_of}
use transpose.Assemble.Filed.{
  filed_under, items_at-collect, Distinct-collect, items_at-own, HasRef, HasRef-sorted_by,
  HasRef-filed,
}
use transpose.Assemble.Group.{
  find_translation, boundary_in, title_after, chapter_at, placed, collect, introduction,
  only_introduction, retitled, split_chapters_by_content, chapters_of,
}
use transpose.Assemble.Stage.{by_reference}
use transpose.Assemble.Ordered.{Ascending, Ascending-sorted_by, All-sorted_by, by_ref}

-- The items of the chunks that have a translation, in order.
unfoldable pub translated_items : List Translation → List ChunkColumns → List Item
translated_items translations [] = []
translated_items translations (chunk ∷ chunks) =
    let rest = translated_items translations chunks in
    elim (find_translation chunk.id none translations) [
      | none ↦ rest
      | some t ↦ (record { chunk = chunk; translation = t }) ∷ rest
    ]

-- The items stand in the sections that they are filed under, each section in order, and the sections in the
-- order of their references as texts.
pub record IsParted (items : List Item) (filed : List (Text × Item))
    (sections : List (Text × List Item)) : Type 0 where
  pub complete : map (λ x. x.1) filed ≡ items
  pub sectioned : All (λ x. x.1 ≡ filed_under x.0 filed) sections
  pub present : All (λ y. HasRef y.0 sections) filed
  pub ordered : Ascending sections

IsParted-collect :
    (items : List Item) (filed : List (Text × Item))
    → map (λ x. x.1) filed ≡ items
    → IsParted items filed (by_reference (collect filed []))
unfolding by_reference
IsParted-collect items filed e =
    let distinct = Distinct-collect filed [] tt in
    record {
      complete = e;
      sectioned =
          All-sorted_by (λ x. x.1 ≡ filed_under x.0 filed) by_ref (collect filed [])
            (All-weaken (collect filed []) (λ x p. sym p ∙ items_at-collect x.0 filed [])
              (items_at-own (collect filed []) distinct));
      present =
          All-weaken filed (λ y. HasRef-sorted_by y.0 (collect filed [])) (HasRef-filed filed []);
      ordered = Ascending-sorted_by (collect filed []) distinct;
    }

placed-step :
    (found : Option Translation) (current : Text) (chunk : ChunkColumns)
    (filed : List (Text × Item)) (items : List Item)
    → map (λ x. x.1) filed ≡ items
    → map {A = Text × Item}
        (λ x. x.1)
        (elim found [
          | none ↦ filed
          | some t ↦ (current, record { chunk = chunk; translation = t }) ∷ filed
        ])
      ≡ elim found [ none ↦ items | some t ↦ (record { chunk = chunk; translation = t }) ∷ items ]
placed-step none current chunk filed items e = e
placed-step (some t) current chunk filed items e =
    ap (λ rest. record { chunk = chunk; translation = t } ∷ rest) e

placed_lem :
    (translations : List Translation) (current : Text) (chunks : List ChunkColumns)
    → map (λ x. x.1) (placed translations current chunks) ≡ translated_items translations chunks
unfolding placed translated_items
placed_lem translations current [] = refl
placed_lem translations current (chunk ∷ chunks) =
    placed-step (find_translation chunk.id none translations) (chapter_at current chunk) chunk
      (placed translations (chapter_at current chunk) chunks) (translated_items translations chunks)
      (placed_lem translations (chapter_at current chunk) chunks)

filed_under-single :
    (ref : Text) (all : List Item) (filed : List (Text × Item))
    → All (λ y. HasRef y.0 ((ref, all) ∷ [])) filed
    → filed_under ref filed ≡ map (λ x. x.1) filed
unfolding select
filed_under-single ref all [] h = refl
filed_under-single ref all (y ∷ filed) (h, hs) = elim h [
  | inl e ↦
      rw ((list_eq_iff y.0 ref).1 (sym e))
        (ap (λ items. y.1 ∷ items) (filed_under-single ref all filed hs))
  | inr e ↦ absurd e
]

map_nil : (p : List (Text × Item)) → map (λ x. x.1) p ≡ [] → p ≡ []
map_nil [] e = refl
map_nil (y ∷ p) e = cc

nothing_filed : (p : List (Text × Item)) → collect p [] ≡ [] → p ≡ []
nothing_filed [] e = refl
nothing_filed (y ∷ p) e = absurd (subst (λ d. HasRef y.0 d) e (HasRef-filed (y ∷ p) []).0)

-- A single section has all the items.
all_items :
    (items : List Item) (p : List (Text × Item)) (ref : Text) (all : List Item)
    → map (λ x. x.1) p ≡ items
    → collect p [] ≡ (ref, all) ∷ []
    → all ≡ items
all_items items p ref all m e =
    let distinct = Distinct-collect p [] tt in
    let own =
      All-weaken (collect p []) (λ x q. sym (items_at-collect x.0 p []) ∙ q)
        (items_at-own (collect p []) distinct) in
    let one = subst (λ (d : List (Text × List Item)). All (λ x. filed_under x.0 p ≡ x.1) d) e own in
    let refs =
      subst (λ (d : List (Text × List Item)). All (λ y. HasRef y.0 d) p) e (HasRef-filed p []) in
    sym one.0 ∙ (filed_under-single ref all p refs ∙ m)

module _ (unicode : Unicode) where
  retitled_lem :
      (current : Text) (items : List Item) → map (λ x. x.1) (retitled unicode current items) ≡ items
  unfolding retitled
  retitled_lem current [] = refl
  retitled_lem current (item ∷ items) =
      ap (λ rest. item ∷ rest)
        (retitled_lem
          (title_after unicode current
            (boundary_in unicode (take 5 (lines_of item.translation.translated_text))))
          items)

  -- Filed by the chapter markers of the chunks, or by the headings in the translations.
  abbrev pub IsFiling : List Translation → List ChunkColumns → List (Text × Item) → Type 0
  IsFiling translations chunks filed =
      (filed ≡ placed translations introduction chunks)
      ⊎ (filed ≡ retitled unicode introduction (translated_items translations chunks))

  -- Without items there is an `IndexError`; otherwise the sections are parted by one of the two filings.
  abbrev pub Parts : List Item → List (Text × Item) → Option (List (Text × List Item)) → Type 0
  Parts items p result =
      ((items ≡ []) × (result ≡ none))
      ⊎ ((chapters_data : List (Text × List Item)) × (result ≡ some chapters_data)
          × ((filed : List (Text × Item)) × ((filed ≡ p)
                ⊎ (filed ≡ retitled unicode introduction items))
              × IsParted items filed (by_reference chapters_data)))

  unsplit :
      (items : List Item) (p : List (Text × Item)) (d : List (Text × List Item))
      → map (λ x. x.1) p ≡ items
      → collect p [] ≡ d
      → Parts items p (some d)
  unsplit items p d m e = inr (
    d,
    refl,
    (p, inl refl, subst (λ d. IsParted items p (by_reference d)) e (IsParted-collect items p m)),
  )

  split_lem :
      (items : List Item) (p : List (Text × Item)) (d : List (Text × List Item))
      → map (λ x. x.1) p ≡ items
      → collect p [] ≡ d
      → Parts items p (split_chapters_by_content unicode d)
  unfolding split_chapters_by_content
  split_lem items p [] m e = inl (sym m ∙ ap (map (λ x. x.1)) (nothing_filed p e), refl)
  split_lem items p ((ref, all) ∷ []) m e =
      elim (Bool-cases (leb (length (collect (retitled unicode introduction all) [])) 1)) [
        | inl few ↦ rw few (unsplit items p ((ref, all) ∷ []) m e)
        | inr many ↦ rw many (
            inr (
              collect (retitled unicode introduction all) [],
              refl,
              (
                retitled unicode introduction items,
                inr refl,
                subst
                    (λ (x : List Item).
                      IsParted items (retitled unicode introduction items)
                        (by_reference (collect (retitled unicode introduction x) [])))
                    (sym (all_items items p ref all m e))
                    (IsParted-collect items (retitled unicode introduction items)
                      (retitled_lem introduction items)),
              ),
            ))
      ]
  split_lem items p (c ∷ d ∷ rest) m e = unsplit items p (c ∷ d ∷ rest) m e

  pub chapters_of_lem :
      (chunks : List ChunkColumns) (translations : List Translation)
      → Parts
          (translated_items translations chunks)
          (placed translations introduction chunks)
          (chapters_of unicode chunks translations)
  unfolding chapters_of
  chapters_of_lem chunks translations =
      let p = placed translations introduction chunks in
      let m = placed_lem translations introduction chunks in
      elim (Bool-cases (length (collect p []) == 1 || only_introduction (collect p []))) [
        | inl e ↦ rw e (split_lem (translated_items translations chunks) p (collect p []) m refl)
        | inr e ↦ rw e (unsplit (translated_items translations chunks) p (collect p []) m refl)
      ]

  pub chapters_of-nothing :
      (chunks : List ChunkColumns) (translations : List Translation)
      → translated_items translations chunks ≡ []
      → chapters_of unicode chunks translations ≡ none
  unfolding chapters_of
  chapters_of-nothing chunks translations e =
      rw
        (map_nil (placed translations introduction chunks)
          (placed_lem translations introduction chunks ∙ e))
        refl
