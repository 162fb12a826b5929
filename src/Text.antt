-- ===== src/Text.antt =====
-- The text operations that src/transpose/pipeline/gates.py, chunk.py and translate.py make of Python's `str`.
-- A text is the list of its code points.
use Prim.Native.Char.{code}
use transpose.Prelude.{
  ◌+◌, Option, none, some, length, ℕ, String, ◌≡◌, ◌↔◌, refl, Bool, true, false, ◌&&◌, ◌||◌, List,
  [], ◌∷◌, leb, ◌==◌, if◌then◌else◌,
}

abbrev pub Text : Type 0
Text = List ℕ

-- A literal of the source.
abbrev pub codes : String → Text
codes String.[] = []
codes (String.◌∷◌ c s) = code c ∷ codes s

-- `str.isspace` of one character.
unfoldable pub is_space : ℕ → Bool
is_space c =
    (leb 9 c && leb c 13)
    || (leb 28 c && leb c 32)
    || c == 0x85
    || c == 0xA0
    || c == 0x1680
    || (leb 0x2000 c && leb c 0x200A)
    || c == 0x2028
    || c == 0x2029
    || c == 0x202F
    || c == 0x205F
    || c == 0x3000

unfoldable pub lstrip : Text → Text
lstrip [] = []
lstrip (c ∷ s) = if is_space c then lstrip s else c ∷ s

unfoldable pub rstrip : Text → Text
rstrip [] = []
rstrip (c ∷ s) = elim (rstrip s) [ [] ↦ if is_space c then [] else c ∷ [] | d ∷ r ↦ c ∷ d ∷ r ]

unfoldable pub strip : Text → Text
strip s = rstrip (lstrip s)

-- `bool(s)`
abbrev pub is_empty {ℓ} : {A : Type ℓ} → List A → Bool
is_empty [] = true
is_empty (_ ∷ _) = false

pub is_empty_iff {ℓ} : {A : Type ℓ} (xs : List A) → (is_empty xs ≡ true) ↔ (xs ≡ [])
is_empty_iff [] = (λ _. refl, λ _. refl)
is_empty_iff (x ∷ xs) = (λ h. cc, λ h. cc)

-- `not s.strip()`
unfoldable pub is_blank : Text → Bool
is_blank [] = true
is_blank (c ∷ s) = is_space c && is_blank s

-- How many characters pass the test: `len(re.findall(r"[…]", s))` for a class of characters.
unfoldable pub count_if : (ℕ → Bool) → Text → ℕ
count_if p [] = 0
count_if p (c ∷ s) = let n = count_if p s in if p c then ℕ.suc n else n

-- `s.replace(c, "")`
unfoldable pub remove_char : ℕ → Text → Text
remove_char c [] = []
remove_char c (d ∷ s) = let rest = remove_char c s in if d == c then rest else d ∷ rest

-- `s.replace(" ", "").replace("\n", "")`
unfoldable pub non_space : Text → Text
non_space s = remove_char 10 (remove_char 32 s)

unfoldable pub starts_with : Text → Text → Bool
starts_with [] s = true
starts_with (p ∷ ps) [] = false
starts_with (p ∷ ps) (c ∷ s) = p == c && starts_with ps s

-- `needle in s`
unfoldable pub contains : Text → Text → Bool
contains needle [] = is_empty needle
contains needle (c ∷ s) = starts_with needle (c ∷ s) || contains needle s

-- `[\u0900-\u097F]`
abbrev pub is_devanagari : ℕ → Bool
is_devanagari c = leb 0x900 c && leb c 0x97F

-- `[A-Za-z]`
abbrev pub is_latin : ℕ → Bool
is_latin c = (leb 65 c && leb c 90) || (leb 97 c && leb c 122)

abbrev pub replacement_char : ℕ
replacement_char = 0xFFFD

-- `s.rfind(needle, 0, end)`: the last place where `needle` stands before `end`; `none` is its -1. The text
-- given is what follows the position `i`.
unfoldable pub rfind_from : ℕ → Text → ℕ → Text → Option ℕ
rfind_from i needle end [] = if is_empty needle && leb i end then some i else none
rfind_from i needle end (c ∷ s) = elim (rfind_from (i + 1) needle end s) [
  | some k ↦ some k
  | none ↦ if starts_with needle (c ∷ s) && leb (i + length needle) end then some i else none
]

unfoldable pub rfind : Text → Text → ℕ → Option ℕ
unfolding rfind_from
rfind s needle end = rfind_from 0 needle end s
