-- ===== src/Assemble/Gated.antt =====
-- What the structure gate, src/transpose/pipeline/gates.py, finds in the chapters that src/transpose/pipeline/assemble.py
-- builds.
use transpose.Prelude.{
  ℕ, ◌≤◌, ◌≡◌, ◌↔◌, inr, refl, sym, ap, ◌∙◌, true, false, List, [], ◌∷◌, map, select, range, length,
  arith, All,
}
use transpose.Text.{Text, is_blank, strip}
use transpose.Gates.Types.{AssembleOutput as GateInput}
use transpose.Gates.Structure.{document_structure_gate, document_structure_gate_iff}
use transpose.Assemble.{Unicode, Item, PageRow, TocEntry, Chapter}
use transpose.Assemble.Render.{empty_assembly, add_chapters}
use transpose.Assemble.Stage.{AssembleOutput}
use transpose.Assemble.Built.{
  top_entries, top_entry, is_none, length-select, add_chapters-numbered, add_chapters-top_entries,
}

-- What the gate reads of the output.
abbrev pub read_by_gate : Text → List Chapter → List TocEntry → GateInput
read_by_gate title chapters toc = record {
  title = title;
  chapters = map (λ c. c.number) chapters;
  table_of_contents = map (λ e. e.title) toc;
}

abbrev pub gate_input : AssembleOutput → GateInput
gate_input out = read_by_gate out.title out.chapters out.table_of_contents

length-map {ℓ κ} :
    {A : Type ℓ} {B : Type κ} (f : A → B) (xs : List A) → length (map f xs) ≡ length xs
length-map f [] = refl
length-map f (x ∷ xs) = ap (λ n. ℕ.suc n) (length-map f xs)

length-range : (n k : ℕ) → length (range n k) ≡ k
unfolding range
length-range n ℕ.zero = refl
length-range n (ℕ.suc k) = ap (λ n. ℕ.suc n) (length-range (ℕ.suc n) k)

-- The chapters are numbered from 1, and each has its entry of level 1, in order.
pub record IsBuilt (chapters : List Chapter) (toc : List TocEntry) : Type 0 where
  pub numbered : map (λ c. c.number) chapters ≡ range 1 (length chapters)
  pub listed : top_entries toc ≡ map top_entry chapters

pub add_chapters-IsBuilt :
    (unicode : Unicode) (pages : List PageRow) (sections : List (Text × List Item))
    → IsBuilt
        (add_chapters unicode pages 1 sections empty_assembly).0
        (add_chapters unicode pages 1 sections empty_assembly).1.toc
unfolding select
add_chapters-IsBuilt unicode pages sections =
    let chapters : List Chapter = (add_chapters unicode pages 1 sections empty_assembly).0 in
    let numbers = add_chapters-numbered unicode pages 1 sections empty_assembly in
    let count : length chapters ≡ length sections =
      sym (length-map (λ c. c.number) chapters)
      ∙ (ap length numbers ∙ length-range 1 (length sections)) in
    record {
      numbered = numbers ∙ ap (range 1) (sym count);
      listed = add_chapters-top_entries unicode pages 1 sections empty_assembly;
    }

-- Nothing but the titles can fail the gate.
pub IsBuilt-gate :
    (title : Text) (chapters : List Chapter) (toc : List TocEntry)
    → IsBuilt chapters toc
    → ((document_structure_gate (read_by_gate title chapters toc)).passed ≡ true)
      ↔ ((is_blank title ≡ false) × All (λ t. 3 ≤ length (strip t)) (map (λ e. e.title) toc))
IsBuilt-gate title chapters toc built =
    let (f, f') = document_structure_gate_iff (read_by_gate title chapters toc) in
    let numbers = length-map (λ c. c.number) chapters in
    let enough : length chapters ≤ length toc = omega (
      arith,
      ap length built.listed,
      length-map top_entry chapters,
      length-select (λ e. is_none e.anchor) toc,
    ) in
    (
      λ h. ((f h).titled, (f h).named),
      λ v. f' (record {
        listed = inr (omega (arith, enough, numbers, length-map (λ e. e.title) toc));
        titled = v.0;
        numbered = built.numbered ∙ ap (range 1) (sym numbers);
        named = v.1;
      }),
    )
