-- ===== src/Assemble/Patterns.antt =====
-- The regular expressions of src/transpose/pipeline/assemble.py, as lists of parts that are matched from the left. In
-- each of them a repeated class is disjoint from what follows it, so that a greedy match never gives back.
use transpose.Prelude.{
  ℕ, zero, suc, ◌+◌, ◌*◌, Bool, true, false, ◌&&◌, ◌||◌, Option, none, some, List, [], ◌∷◌, leb,
  ◌==◌, if◌then◌else◌,
}
use transpose.Text.{Text, is_space}
use transpose.Assemble.{Unicode}

-- What follows the match, if there is one.
abbrev pub Pattern : Type 0
Pattern = Text → Option Text

-- A letter as `re.IGNORECASE` compares it with one of A to Z: four letters beyond ASCII are equal to one.
unfoldable pub fold_case : ℕ → ℕ
fold_case c =
    if leb 65 c && leb c 90
    then c + 32
    else if c == 0x130 || c == 0x131
    then 105
    else if c == 0x212A
    then 107
    else if c == 0x17F
    then 115
    else c

-- A literal, with `re.IGNORECASE`.
unfoldable pub word : Text → Pattern
unfolding fold_case
word [] s = some s
word (p ∷ ps) [] = none
word (p ∷ ps) (c ∷ s) = let rest = word ps s in if fold_case p == fold_case c then rest else none

-- `[…]*`
unfoldable pub zero_or_more : (ℕ → Bool) → Pattern
zero_or_more is_in [] = some []
zero_or_more is_in (c ∷ s) =
    let rest = zero_or_more is_in s in if is_in c then rest else some (c ∷ s)

-- `[…]`
unfoldable pub one_of : (ℕ → Bool) → Pattern
one_of is_in [] = none
one_of is_in (c ∷ s) = if is_in c then some s else none

-- `[…]+`
unfoldable pub one_or_more : (ℕ → Bool) → Pattern
unfolding zero_or_more
one_or_more is_in [] = none
one_or_more is_in (c ∷ s) = if is_in c then zero_or_more is_in s else none

abbrev pub and_then : Option Text → Pattern → Option Text
and_then none p = none
and_then (some s) p = p s

-- The parts of an expression, one behind the other.
unfoldable pub matches : List Pattern → Pattern
matches [] s = some s
matches (p ∷ ps) s = elim (p s) [ none ↦ none | some rest ↦ matches ps rest ]

-- `re.match(…)` as a test.
abbrev pub found : Option Text → Bool
found none = false
found (some _) = true

-- `[—\u2014\u2013-]`
abbrev pub is_dash : ℕ → Bool
is_dash c = c == 0x2014 || (c == 0x2013 || c == 45)

-- `[A-Z]`
abbrev pub is_upper : ℕ → Bool
is_upper c = leb 65 c && leb c 90

-- `[a-z]`
abbrev pub is_lower : ℕ → Bool
is_lower c = leb 97 c && leb c 122

-- `[\s-]`
abbrev pub is_space_or_hyphen : ℕ → Bool
is_space_or_hyphen c = is_space c || c == 45

module _ (unicode : Unicode) where
  -- `\d`
  unfoldable pub is_decimal : ℕ → Bool
  is_decimal c = elim (unicode.decimal_value c) [ none ↦ false | some _ ↦ true ]

  -- `\b` behind a character of a word.
  unfoldable pub boundary : Pattern
  boundary [] = some []
  boundary (c ∷ s) = if unicode.is_word c then none else some (c ∷ s)

  -- `[IVXLCDM\d]`, with `re.IGNORECASE`
  unfoldable pub is_numeral : ℕ → Bool
  unfolding fold_case is_decimal
  is_numeral c =
      let l = fold_case c in
      l == b'i'
      || (l == b'v'
          || (l == b'x'
              || (l == b'l' || (l == b'c' || (l == b'd' || (l == b'm' || is_decimal c))))))

  -- `\d{1,3}`
  unfoldable pub up_to_digits : ℕ → Pattern
  unfolding is_decimal
  up_to_digits zero s = some s
  up_to_digits (suc n) [] = some []
  up_to_digits (suc n) (c ∷ s) =
      let rest = up_to_digits n s in if is_decimal c then rest else some (c ∷ s)

  -- `int(…)` of the digits at the start of the text.
  unfoldable pub int_of : ℕ → Text → ℕ
  int_of n [] = n
  int_of n (c ∷ s) = elim (unicode.decimal_value c) [ none ↦ n | some d ↦ int_of (n * 10 + d) s ]

-- `text.split("\n")`
abbrev pub push : ℕ → List Text → List Text
push c [] = (c ∷ []) ∷ []
push c (l ∷ ls) = (c ∷ l) ∷ ls

unfoldable pub lines_of : Text → List Text
lines_of [] = [] ∷ []
lines_of (c ∷ s) = let rest = lines_of s in if c == 10 then [] ∷ rest else push c rest
