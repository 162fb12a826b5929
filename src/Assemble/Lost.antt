-- ===== src/Assemble/Lost.antt =====
-- The passage behind a marker in src/transpose/pipeline/assemble.py.
use transpose.Prelude.{
  ℕ, ◌≡◌, refl, ap, ◌∙◌, Bool, true, false, not, ◌&&◌, [], ◌∷◌, ◌++◌, ◌==◌, arith,
}
use transpose.Text.{Text, is_space, is_latin, contains, starts_with}
use transpose.Assemble.Markers.{
  translation_failed_placeholder, original_text_fallback_prefix, omission_note, outside, in_passage,
  at_paragraph, omit_passages, without_markers,
}

-- One line of text that does not begin with white space.
abbrev pub is_line : Text → Bool
is_line [] = true
is_line (c ∷ s) = not (c == 10) && is_line s

abbrev pub begins_passage : Text → Bool
begins_passage [] = false
begins_passage (c ∷ s) = not (is_space c) && is_line (c ∷ s)

abbrev pub begins_latin : Text → Bool
begins_latin [] = false
begins_latin (c ∷ s) = is_latin c

paragraph-break : (q : Text) → begins_latin q ≡ true → at_paragraph (10 ∷ (10 ∷ q)) ≡ true
unfolding at_paragraph
paragraph-break [] h = cc
paragraph-break (c ∷ q) h = h

no_paragraph : (c : ℕ) (s : Text) → not (c == 10) ≡ true → at_paragraph (c ∷ s) ≡ false
unfolding at_paragraph
no_paragraph c [] h = refl
no_paragraph c (d ∷ []) h = refl
no_paragraph c (d ∷ (e ∷ s)) h = ground arith

and_true : (a b : Bool) → (a && b) ≡ true → (a ≡ true) × (b ≡ true)
and_true true b h = (refl, h)
and_true false b h = cc

is_false : (b : Bool) → not b ≡ true → b ≡ false
is_false true h = cc
is_false false h = refl

in_passage-line :
    (p q : Text)
    → is_line p ≡ true
    → begins_latin q ≡ true
    → omit_passages in_passage (p ++ (10 ∷ (10 ∷ q))) ≡ 10 ∷ (10 ∷ omit_passages outside q)
unfolding omit_passages
in_passage-line [] q h k = rw (paragraph-break q k) (unfold starts_with in refl)
in_passage-line (c ∷ p) q h k =
    let (first, rest) = and_true (not (c == 10)) (is_line p) h in
    rw (no_paragraph c (p ++ (10 ∷ (10 ∷ q))) first) (in_passage-line p q rest k)

shown_without_marker :
    (t : Text)
    → contains translation_failed_placeholder t ≡ false
    → contains original_text_fallback_prefix t ≡ true
    → without_markers t ≡ omit_passages outside t
unfolding without_markers
shown_without_marker t e f = rw (e, f) refl

prefix_found :
    (x : Text) → contains original_text_fallback_prefix (original_text_fallback_prefix ++ x) ≡ true
unfolding contains starts_with
prefix_found x = refl

-- If the marker and an empty line stand before two paragraphs of a translation without the failure marker, the first is a single line and the second begins
-- with a Latin letter, the first is left out with the marker.
pub without_markers-loses :
    (p q : Text)
    → begins_passage p ≡ true
    → begins_latin q ≡ true
    → contains translation_failed_placeholder
        (original_text_fallback_prefix ++ (10 ∷ (10 ∷ (p ++ (10 ∷ (10 ∷ q))))))
      ≡ false
    → without_markers (original_text_fallback_prefix ++ (10 ∷ (10 ∷ (p ++ (10 ∷ (10 ∷ q))))))
      ≡ omission_note ++ (10 ∷ (10 ∷ omit_passages outside q))
unfolding omit_passages starts_with is_space
without_markers-loses [] q h k e = cc
without_markers-loses (c ∷ p) q h k e =
    let (visible, line) = and_true (not (is_space c)) (is_line (c ∷ p)) h in
    shown_without_marker _ e (prefix_found _)
    ∙ rw (is_false (is_space c) visible) (
        ap (λ rest. omission_note ++ rest)
          (in_passage-line p q (and_true (not (c == 10)) (is_line p) line).1 k))
