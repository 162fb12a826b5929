-- ===== src/Chunk/Paragraphs.antt =====
-- The paragraphs of the joined text in `run` of src/transpose/pipeline/chunk.py: the marker of a chapter, the breaks that
-- are put in front of one, and the split at empty lines.
use transpose.Prelude.{
  ℕ, Bool, true, false, not, ◌&&◌, ◌||◌, Option, none, some, List, [], ◌∷◌, ◌++◌, length, drop,
  ◌==◌, if◌then◌else◌,
}
use transpose.Text.{Text, codes, starts_with, is_space}

-- `[\s-]*` and `\s*`
unfoldable pub skip_gap : Text → Text
skip_gap [] = []
skip_gap (c ∷ s) = let rest = skip_gap s in if is_space c || c == 45 then rest else c ∷ s

unfoldable pub skip_space : Text → Text
skip_space [] = []
skip_space (c ∷ s) = let rest = skip_space s in if is_space c then rest else c ∷ s

-- `[—\u2014\u2013-]`
unfoldable pub starts_with_dash : Text → Bool
starts_with_dash [] = false
starts_with_dash (c ∷ s) = c == 0x2014 || (c == 0x2013 || c == 45)

-- `तं[\s-]*सू\s*[—\u2014\u2013-]`
unfoldable pub starts_with_tantra : Text → Bool
unfolding starts_with skip_gap skip_space starts_with_dash
starts_with_tantra t =
    let rest = skip_gap (drop (length (codes "तं")) t) in
    starts_with (codes "तं") t
    && (starts_with (codes "सू") rest
        && starts_with_dash (skip_space (drop (length (codes "सू")) rest)))

-- `chapter_pattern.match(para)`
unfoldable pub is_chapter : Text → Bool
unfolding starts_with_tantra
is_chapter para =
    starts_with (codes "Chapter") para
    || (starts_with (codes "अध्याय") para
        || (starts_with (codes "ਅਧਿਆਇ") para || starts_with_tantra para))

-- The `re.sub` that doubles a single line end before a marker; `after_newline` says what stands before.
unfoldable pub break_before_markers : Bool → Text → Text
unfolding starts_with_tantra
break_before_markers after_newline [] = []
break_before_markers after_newline (c ∷ s) =
    let rest = break_before_markers (c == 10) s in
    if c == 10 && (not after_newline && starts_with_tantra s) then 10 ∷ 10 ∷ rest else c ∷ rest

-- A line end that may turn out to be the first of two.
abbrev pub held : Bool → Text
held true = 10 ∷ []
held false = []

-- `full_text.split("\n\n")`
unfoldable pub split_from : Text → Bool → Text → List Text
split_from current pending [] = (current ++ held pending) ∷ []
split_from current pending (c ∷ s) =
    let newline = c == 10 in
    let closes = newline && pending in
    let grown = if newline then current else current ++ (held pending ++ c ∷ []) in
    let rest = split_from (if closes then [] else grown) (newline && not pending) s in
    if closes then current ∷ rest else rest

unfoldable pub paragraphs_of : Text → List Text
unfolding split_from
paragraphs_of full_text = split_from [] false full_text

-- `full_text.find(needle)`; `none` is its -1.
unfoldable pub find_from : ℕ → Text → Text → Option ℕ
unfolding starts_with
find_from i needle [] = if starts_with needle [] then some i else none
find_from i needle (c ∷ s) =
    let rest = find_from (ℕ.suc i) needle s in if starts_with needle (c ∷ s) then some i else rest
