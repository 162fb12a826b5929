-- ===== src/Workspace/Slug.antt =====
-- `make_slug` and `make_blob_prefix` of src/transpose/pipeline/workspace.py. `nfkd` is `unicodedata.normalize("NFKD", …)`.
use transpose.Prelude.{
  ℕ, ◌+◌, ◌-◌, Bool, false, ◌&&◌, ◌||◌, [], ◌∷◌, ◌++◌, map, select, take, drop, length, ltb, leb,
  ◌==◌, if◌then◌else◌,
}
use transpose.Text.{Text, codes, is_space, is_empty, remove_char}

-- `text.lower()` of an ASCII character.
abbrev pub ascii_lower : ℕ → ℕ
ascii_lower c = if leb 65 c && leb c 90 then c + 32 else c

-- `[a-z0-9]`, all that `\w` has behind `lower()` besides the underscore.
abbrev pub is_plain : ℕ → Bool
is_plain c = (leb 97 c && leb c 122) || (leb 48 c && leb c 57)

-- `[\s_]`
abbrev pub is_gap : ℕ → Bool
is_gap c = is_space c || c == 95

-- `[\w\s-]`
abbrev pub is_kept : ℕ → Bool
is_kept c = is_plain c || (is_gap c || c == 45)

-- `re.sub(r"[\s_]+", "-", text)`; `in_gap` says that the character before was one of a gap.
unfoldable pub hyphenate : Bool → Text → Text
unfolding is_space
hyphenate in_gap [] = []
hyphenate in_gap (c ∷ s) =
    let rest = hyphenate (is_gap c) s in
    if is_gap c then (if in_gap then rest else 45 ∷ rest) else c ∷ rest

-- `text.lstrip("-")` and `text.rstrip("-")`
unfoldable pub lstrip_hyphens : Text → Text
lstrip_hyphens [] = []
lstrip_hyphens (c ∷ s) = let rest = lstrip_hyphens s in if c == 45 then rest else c ∷ s

unfoldable pub rstrip_hyphens : Text → Text
rstrip_hyphens [] = []
rstrip_hyphens (c ∷ s) = elim (rstrip_hyphens s) [
  | [] ↦ if c == 45 then [] else c ∷ []
  | d ∷ r ↦ c ∷ d ∷ r
]

unfoldable pub make_slug : (Text → Text) → Text → ℕ → Text
unfolding select hyphenate lstrip_hyphens rstrip_hyphens is_space
make_slug nfkd title max_chars =
    let ascii = select (λ c. ltb c 128) (nfkd title) in
    let kept = select is_kept (map ascii_lower ascii) in
    let stripped = rstrip_hyphens (lstrip_hyphens (hyphenate false kept)) in
    let slug = rstrip_hyphens (take max_chars stripped) in
    if is_empty slug then codes "book" else slug

-- The last six characters of the identifier without its hyphens.
abbrev pub short_id : Text → Text
short_id book_id = let digits = remove_char 45 book_id in drop (length digits - 6) digits

unfoldable pub make_blob_prefix : Text → Text → Text
unfolding remove_char
make_blob_prefix slug book_id = slug ++ (codes "--" ++ short_id book_id)
