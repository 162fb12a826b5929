-- ===== src/Assemble/Markers.antt =====
-- What the loop over the items in src/transpose/pipeline/assemble.py does with the markers of failed translations.
use transpose.Prelude.{
  ℕ, zero, suc, ◌-◌, Bool, false, ◌&&◌, ◌||◌, [], ◌∷◌, ◌++◌, length, ◌==◌, if◌then◌else◌,
}
use transpose.Text.{Text, codes, is_space, is_latin, starts_with, contains}

-- `TRANSLATION_FAILED_PLACEHOLDER` and `ORIGINAL_TEXT_FALLBACK_PREFIX`
abbrev pub translation_failed_placeholder : Text
translation_failed_placeholder = codes "[TRANSLATION FAILED — REVIEW REQUIRED]"

abbrev pub original_text_fallback_prefix : Text
original_text_fallback_prefix = codes "[Original text — translation unavailable]"

abbrev pub omission_note : Text
omission_note =
    codes "[A passage from the original text could not be translated and has been omitted.]"

-- `text.replace(needle, new)` from where the first characters, so many, are part of a match.
unfoldable pub replace_from : Text → Text → ℕ → Text → Text
unfolding starts_with
replace_from needle new skip [] = []
replace_from needle new (suc k) (c ∷ s) = replace_from needle new k s
replace_from needle new zero (c ∷ s) =
    let matched = replace_from needle new (length needle - 1) s in
    let rest = replace_from needle new zero s in
    if starts_with needle (c ∷ s) then new ++ matched else c ∷ rest

-- Where the `re.sub` stands: outside a match, so many characters before the end of the prefix, in `\s*`, or
-- in `[\s\S]*?`.
pub data Place : Type 0 where
  outside in_space in_passage : Place
  in_prefix : ℕ → Place

-- `(?=\n\n[A-Za-z])`
unfoldable pub at_paragraph : Text → Bool
at_paragraph (c ∷ d ∷ e ∷ s) = c == 10 && (d == 10 && is_latin e)
at_paragraph _ = false

-- The `re.sub` of the prefix and the passage behind it.
unfoldable pub omit_passages : Place → Text → Text
unfolding starts_with at_paragraph is_space
omit_passages place [] = []
omit_passages outside (c ∷ s) =
    let matched = omit_passages (in_prefix (length original_text_fallback_prefix - 1)) s in
    let rest = omit_passages outside s in
    if starts_with original_text_fallback_prefix (c ∷ s) then omission_note ++ matched else c ∷ rest
omit_passages (in_prefix (suc k)) (c ∷ s) = omit_passages (in_prefix k) s
omit_passages (in_prefix zero) (c ∷ s) =
    omit_passages (if is_space c then in_space else in_passage) s
omit_passages in_space (c ∷ s) = omit_passages (if is_space c then in_space else in_passage) s
omit_passages in_passage (c ∷ s) =
    let ended = omit_passages outside s in
    let rest = omit_passages in_passage s in if at_paragraph (c ∷ s) then c ∷ ended else rest

-- The text that is shown in place of a translation.
unfoldable pub without_markers : Text → Text
unfolding contains replace_from omit_passages
without_markers translated_text =
    let text =
      if contains translation_failed_placeholder translated_text
      then replace_from translation_failed_placeholder original_text_fallback_prefix 0
          translated_text
      else translated_text in
    if contains original_text_fallback_prefix text then omit_passages outside text else text

-- Whether the item adds to `untranslated_passages`.
unfoldable pub is_untranslated : Text → Bool
unfolding contains
is_untranslated translated_text =
    contains translation_failed_placeholder translated_text
    || contains original_text_fallback_prefix translated_text
