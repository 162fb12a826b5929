-- ===== src/Gates/Structure.antt =====
-- `document_structure_gate` of src/transpose/pipeline/gates.py. Checks 2 and 6 only write warnings into
-- `details` and are left out. A chapter is given by its number.
use transpose.Prelude.{
  range, ℕ, ◌+◌, ◌≤◌, ◌≡◌, ◌↔◌, ◌⊎◌, inl, inr, refl, Bool, true, false, ◌&&◌, ◌||◌, List, [], ◌∷◌,
  ◌++◌, arith, ltb, if◌then◌else◌, All, list_eq, list_eq_iff, append₃-eq-nil_iff, append-eq-nil_iff,
  length,
}
use transpose.Text.{Text, is_empty, is_blank, strip, lstrip, rstrip}
use transpose.Gates.Types.{
  Failure, short_toc, no_title, not_sequential, empty_toc_entries, GateResult, result, passed_iff,
  AssembleOutput,
}

-- Check 1: a table that is there has at least as many entries as there are chapters.
toc_issues : ℕ → ℕ → List Failure
toc_issues toc chapters =
    if (ltb 0 toc && ltb 0 chapters) && ltb toc chapters then short_toc toc chapters ∷ [] else []

-- Check 3
title_issues : Text → List Failure
title_issues title = if is_empty title || is_blank title then no_title ∷ [] else []

-- Check 4
number_issues : List ℕ → List Failure
number_issues chapters =
    if is_empty chapters
    then []
    else if list_eq chapters (range 1 (length chapters))
    then []
    else not_sequential chapters ∷ []

-- `not entry_title or not entry_title.strip() or len(entry_title.strip()) < 3`
unfoldable pub is_trivial : Text → Bool
is_trivial title = is_empty title || (is_blank title || ltb (length (strip title)) 3)

-- The positions of the trivial entries, counted from `n`.
unfoldable pub trivial_positions : ℕ → List Text → List ℕ
trivial_positions n [] = []
trivial_positions n (t ∷ ts) =
    let rest = trivial_positions (n + 1) ts in if is_trivial t then n ∷ rest else rest

-- Check 5
entry_issues : List Text → List Failure
entry_issues toc =
    let empty = trivial_positions 1 toc in
    if is_empty empty then [] else empty_toc_entries empty ∷ []

unfoldable pub document_structure_gate : AssembleOutput → GateResult
unfolding toc_issues title_issues number_issues entry_issues trivial_positions is_trivial range
document_structure_gate m = result "document_structure" (
    toc_issues (length m.table_of_contents) (length m.chapters)
    ++ (title_issues m.title ++ (number_issues m.chapters ++ entry_issues m.table_of_contents)))

pub record IsWellFormed (m : AssembleOutput) : Type 0 where
  pub listed : (m.table_of_contents ≡ []) ⊎ (length m.chapters ≤ length m.table_of_contents)
  pub titled : is_blank m.title ≡ false
  pub numbered : m.chapters ≡ range 1 (length m.chapters)
  pub named : All (λ t. 3 ≤ length (strip t)) m.table_of_contents

toc_iff :
    (toc : List Text) (chapters : List ℕ)
    → (toc_issues (length toc) (length chapters) ≡ [])
      ↔ ((toc ≡ []) ⊎ (length chapters ≤ length toc))
unfolding toc_issues
toc_iff [] chapters = (λ _. inl refl, λ _. refl)
toc_iff (t ∷ ts) chapters = (λ h. inr (ground arith), λ v. ground arith)

title_iff : (t : Text) → (title_issues t ≡ []) ↔ (is_blank t ≡ false)
unfolding title_issues is_blank
title_iff [] = ground arith
title_iff (c ∷ t) = ground arith

number_iff : (xs : List ℕ) → (number_issues xs ≡ []) ↔ (xs ≡ range 1 (length xs))
unfolding number_issues
number_iff [] = unfold range in (λ _. refl, λ _. refl)
number_iff (x ∷ xs) =
    let (f, f') = list_eq_iff (x ∷ xs) (range 1 (length (x ∷ xs))) in
    (λ h. f (ground arith), λ v. ground (arith, f' v))

-- A blank text has nothing left to strip, so the third test of an entry decides.
lstrip-blank : (t : Text) → is_blank t ≡ true → lstrip t ≡ []
unfolding is_blank lstrip
lstrip-blank [] h = refl
lstrip-blank (c ∷ t) h = ground (arith, lstrip-blank t)

length-strip-blank : (t : Text) → is_blank t ≡ true → length (strip t) ≡ 0
unfolding strip rstrip
length-strip-blank t h = rw (lstrip-blank t h)

trivial_iff : (t : Text) → (is_trivial t ≡ false) ↔ (3 ≤ length (strip t))
unfolding is_trivial
trivial_iff [] = unfold strip lstrip rstrip in ground arith
trivial_iff (c ∷ t) = (λ h. ground arith, λ v. ground (arith, length-strip-blank (c ∷ t)))

positions_iff :
    (n : ℕ) (ts : List Text) → (trivial_positions n ts ≡ []) ↔ All (λ t. 3 ≤ length (strip t)) ts
unfolding trivial_positions
positions_iff n [] = (λ _. tt, λ _. refl)
positions_iff n (t ∷ ts) =
    let (f, f') = positions_iff (n + 1) ts in
    let (g, g') = trivial_iff t in
    (λ h. (g (ground arith), f (ground arith)), λ v. ground (arith, f' v.1, g' v.0))

entry_iff : (ts : List Text) → (entry_issues ts ≡ []) ↔ All (λ t. 3 ≤ length (strip t)) ts
unfolding entry_issues
entry_iff ts =
    let (f, f') = positions_iff 1 ts in (λ h. f (ground arith), λ v. ground (arith, f' v))

-- The gate lets a manuscript pass exactly when it has a title, its chapters are numbered 1, 2, … in order, a
-- table of contents that is not empty has an entry for each chapter, and each entry has three characters.
pub document_structure_gate_iff :
    (m : AssembleOutput) → ((document_structure_gate m).passed ≡ true) ↔ IsWellFormed m
unfolding document_structure_gate
document_structure_gate_iff m =
    let (a, a') = toc_iff m.table_of_contents m.chapters in
    let (b, b') = title_iff m.title in
    let (c, c') = number_iff m.chapters in
    let (d, d') = entry_iff m.table_of_contents in
    let (e, e') =
      append₃-eq-nil_iff (title_issues m.title) (number_issues m.chapters)
        (entry_issues m.table_of_contents) in
    let (f, f') =
      append-eq-nil_iff (toc_issues (length m.table_of_contents) (length m.chapters))
        (title_issues m.title ++ (number_issues m.chapters ++ entry_issues m.table_of_contents)) in
    passed_iff "document_structure" _ (
      λ h. record {
        listed = a (f h).0;
        titled = b (e (f h).1).0;
        numbered = c (e (f h).1).1;
        named = d (e (f h).1).2;
      },
      λ v. f' (a' v.listed, e' (b' v.titled, c' v.numbered, d' v.named)),
    )
