-- ===== src/Assemble/Titles.antt =====
-- The titles that src/transpose/pipeline/assemble.py takes from the translated text.
use transpose.Prelude.{
  ℕ, zero, suc, Bool, false, not, ◌&&◌, ◌||◌, Option, none, some, List, [], ◌∷◌, ◌++◌, map, length,
  take, select, any, ltb, ◌==◌, if◌then◌else◌,
}
use transpose.Text.{Text, codes, is_space, strip, is_empty}
use transpose.Transcript.Stamps.{decimal}
use transpose.Glossary.Stage.{join_texts}
use transpose.Assemble.{Unicode, Item}
use transpose.Assemble.Patterns.{
  Pattern, word, zero_or_more, one_of, one_or_more, matches, found, is_dash, is_upper, is_lower,
  is_decimal, boundary, int_of, lines_of,
}
use transpose.Assemble.Headings.{any_matches, word_and_number}

-- `s.lstrip("\n")`
unfoldable pub lstrip_newlines : Text → Text
lstrip_newlines [] = []
lstrip_newlines (c ∷ s) = if c == 10 then lstrip_newlines s else c ∷ s

-- A literal, letter by letter.
abbrev pub exactly : Text → List Pattern
exactly [] = []
exactly (c ∷ s) = one_of (λ d. d == c) ∷ exactly s

abbrev pub head_is_dash : Text → Bool
head_is_dash [] = false
head_is_dash (c ∷ s) = is_dash c

-- `_join_subtitle_line`, on the lines that are not empty and follow the title.
unfoldable pub join_subtitle_line : Text → List Text → Text
join_subtitle_line title [] = title
join_subtitle_line title (next_line ∷ _) =
    if head_is_dash next_line then title ++ (codes " " ++ next_line) else title

-- `[line.strip() for line in lines if line.strip()]`
abbrev pub non_empty : List Text → List Text
non_empty lines = select (λ l. not (is_empty l)) (map strip lines)

-- The lines behind the first and behind a subtitle, by the `while` loop.
unfoldable pub drop_subtitles : List Text → List Text
drop_subtitles [] = []
drop_subtitles (l ∷ ls) =
    let rest = drop_subtitles ls in
    if is_empty (strip l) || head_is_dash (strip l) then rest else l ∷ ls

abbrev pub tail : List Text → List Text
tail [] = []
tail (l ∷ ls) = ls

abbrev pub first_line : List Text → Text
first_line [] = []
first_line (l ∷ ls) = l

-- `fallback`, or what was found.
abbrev pub or_title : Option Text → Text → Text
or_title none d = d
or_title (some t) d = t

module _ (unicode : Unicode) where
  abbrev pub title_patterns : List (List Pattern)
  title_patterns =
      (word (codes "Chapter")
        ∷ one_or_more is_space
        ∷ one_or_more (is_decimal unicode)
        ∷ boundary unicode
        ∷ [])
      ∷ (word (codes "Introduction") ∷ boundary unicode ∷ [])
      ∷ (word (codes "Tantra")
          ∷ one_or_more is_space
          ∷ word (codes "Sutra")
          ∷ boundary unicode
          ∷ [])
      ∷ (word (codes "Method")
          ∷ one_or_more is_space
          ∷ one_or_more (is_decimal unicode)
          ∷ boundary unicode
          ∷ [])
      ∷ []

  -- `_strip_leading_chapter_title`
  unfoldable pub strip_leading_chapter_title : Text → Text
  unfolding lines_of strip any matches word one_or_more zero_or_more is_decimal boundary
      drop_subtitles lstrip_newlines
  strip_leading_chapter_title text =
      let lines = lines_of text in
      if any_matches unicode title_patterns (strip (first_line lines))
      then lstrip_newlines (join_texts (codes "\n") (drop_subtitles (tail lines)))
      else text

  -- `^(Chapter \d+:.+)`
  abbrev pub chapter_title : List Pattern
  chapter_title =
      word (codes "Chapter ")
      ∷ one_or_more (is_decimal unicode)
      ∷ one_of (λ c. c == b':')
      ∷ one_of (λ c. not (c == 10))
      ∷ []

  -- `^(Tantra\s+Sutra\s*[—\u2014\u2013-]\s*Method\s*\d+.*)`
  abbrev pub tantra_title : List Pattern
  tantra_title =
      word (codes "Tantra")
      ∷ one_or_more is_space
      ∷ word (codes "Sutra")
      ∷ zero_or_more is_space
      ∷ one_of is_dash
      ∷ zero_or_more is_space
      ∷ word (codes "Method")
      ∷ zero_or_more is_space
      ∷ one_or_more (is_decimal unicode)
      ∷ []

  -- `^[A-Z][^a-z]*$` or `^[A-Z][a-zA-Z\s:—\u2013\u2014-]+$`
  abbrev pub is_title_like : Text → Bool
  is_title_like [] = false
  is_title_like (c ∷ s) =
      is_upper c
      && (not (any is_lower s)
          || (not (is_empty s)
              && not (
                  any
                    (λ d.
                      not (is_lower d || (is_upper d || (is_space d || (d == b':' || is_dash d)))))
                    s)))

  -- The first of the three tests on a line that gives a title shorter than 200 characters.
  unfoldable pub title_of_line : Text → List Text → Option Text
  unfolding any matches word one_or_more zero_or_more one_of is_decimal strip join_subtitle_line
  title_of_line line following =
      let title = join_subtitle_line (strip line) following in
      let is_short = ltb (length title) 200 in
      if (found (matches chapter_title line)
          || (found (matches tantra_title line)
              || found (matches (word_and_number unicode "Method") line)))
        && is_short
      then some title
      else if is_title_like line && ltb (length line) 200
      then some line
      else none

  -- The loop over the first lines that are not empty.
  unfoldable pub title_of_lines : ℕ → List Text → Option Text
  unfolding title_of_line
  title_of_lines zero lines = none
  title_of_lines (suc n) [] = none
  title_of_lines (suc n) (l ∷ ls) = elim (title_of_line l ls) [
    | some t ↦ some t
    | none ↦ title_of_lines n ls
  ]

  -- The first of these lines that has fewer than 100 characters.
  unfoldable pub short_line : List Text → Option Text
  short_line [] = none
  short_line (l ∷ ls) = let rest = short_line ls in if ltb (length l) 100 then some l else rest

  abbrev pub title_of_text : Text → Text → Text
  title_of_text text fallback =
      let lines = non_empty (lines_of text) in
      or_title (title_of_lines 3 lines) (or_title (short_line (take 5 lines)) fallback)

  -- `^तं-सू—विधि—(\d+)`, with what follows the last dash.
  abbrev pub method_ref : Text → Option Text
  method_ref fallback = matches (exactly (codes "तं-सू—विधि—")) fallback

  abbrev pub starts_with_digit : Text → Bool
  starts_with_digit s = found (one_of (is_decimal unicode) s)

  -- `_extract_chapter_title`
  unfoldable pub extract_chapter_title : List Item → Text → Text
  unfolding matches one_of is_decimal int_of lines_of strip select title_of_lines short_line decimal
  extract_chapter_title chapter_chunks fallback = elim (method_ref fallback) [
    | some rest ↦
        if starts_with_digit rest
        then codes "Tantra Sutra — Method " ++ decimal (int_of unicode 0 rest)
        else from_text chapter_chunks
    | none ↦ from_text chapter_chunks
  ]
    where
      from_text : List Item → Text
      from_text [] = fallback
      from_text (item ∷ _) =
          if is_empty item.translation.translated_text
          then fallback
          else title_of_text item.translation.translated_text fallback
