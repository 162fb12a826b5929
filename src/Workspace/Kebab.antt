-- ===== src/Workspace/Kebab.antt =====
-- The form of the slugs of src/transpose/pipeline/workspace.py.
use transpose.Prelude.{
  ℕ, zero, suc, ◌≤◌, ◌<◌, ◌≡◌, refl, Bool, true, false, ◌||◌, [], ◌∷◌, map, select, take, length,
  ltb, ◌==◌, All, arith, Bool-cases, inl, inr, if◌then◌else◌,
}
use transpose.Text.{Text, codes, is_empty}
use transpose.Workspace.Slug.{
  ascii_lower, is_plain, is_gap, is_kept, hyphenate, lstrip_hyphens, rstrip_hyphens, make_slug,
}

-- No hyphen at the start, and none at the end.
abbrev pub starts_plain : Text → Bool
starts_plain [] = true
starts_plain (c ∷ s) = is_plain c

abbrev pub ends_plain : Text → Bool
ends_plain [] = true
ends_plain (c ∷ []) = is_plain c
ends_plain (c ∷ d ∷ s) = ends_plain (d ∷ s)

-- Some lower case letters, digits and hyphens, not too many, with no hyphen at either end.
pub record IsSlug (max_chars : ℕ) (slug : Text) : Type 0 where
  pub letters : All (λ c. (is_plain c || c == 45) ≡ true) slug
  pub starts : starts_plain slug ≡ true
  pub ends : ends_plain slug ≡ true
  pub some_chars : 0 < length slug
  pub not_too_many : length slug ≤ max_chars

abbrev Letters : Text → Type 0
Letters s = All (λ c. (is_plain c || c == 45) ≡ true) s

Letters-if :
    (b : Bool) (s t : Text)
    → (b ≡ true → Letters s)
    → (b ≡ false → Letters t)
    → Letters (if b then s else t)
Letters-if true s t f g = f refl
Letters-if false s t f g = g refl

Letters-hyphenate : (b : Bool) (s : Text) → All (λ c. is_kept c ≡ true) s → Letters (hyphenate b s)
unfolding hyphenate
Letters-hyphenate b [] h = tt
Letters-hyphenate b (c ∷ s) (h, hs) =
    let rest = Letters-hyphenate (is_gap c) s hs in
    Letters-if (is_gap c) _ _ (λ _. Letters-if b _ _ (λ _. rest) (λ _. (refl, rest)))
      (λ e. (kept_plain c h e, rest))
  where
    kept_plain : (c : ℕ) → is_kept c ≡ true → is_gap c ≡ false → (is_plain c || c == 45) ≡ true
    kept_plain c h e = ground arith

All-select : (p : ℕ → Bool) (s : Text) → All (λ c. p c ≡ true) (select p s)
unfolding select
All-select p [] = tt
All-select p (c ∷ s) = elim (Bool-cases (p c)) [
  | inl e ↦ rw e (e, All-select p s)
  | inr e ↦ rw e (All-select p s)
]

Letters-lstrip : (s : Text) → Letters s → Letters (lstrip_hyphens s)
unfolding lstrip_hyphens
Letters-lstrip [] h = tt
Letters-lstrip (c ∷ s) (h, hs) = Letters-if (c == 45) _ _ (λ _. Letters-lstrip s hs) (λ _. (h, hs))

starts-lstrip : (s : Text) → Letters s → starts_plain (lstrip_hyphens s) ≡ true
unfolding lstrip_hyphens
starts-lstrip [] h = refl
starts-lstrip (c ∷ s) (h, hs) = ground (arith, starts-lstrip s hs)

Letters-rstrip : (s : Text) → Letters s → Letters (rstrip_hyphens s)
unfolding rstrip_hyphens
Letters-rstrip [] h = tt
Letters-rstrip (c ∷ s) (h, hs) = last (rstrip_hyphens s) (Letters-rstrip s hs)
  where
    last :
        (r : Text)
        → Letters r
        → Letters (elim r [ [] ↦ if c == 45 then [] else c ∷ [] | d ∷ r ↦ c ∷ d ∷ r ])
    last [] k = Letters-if (c == 45) [] (c ∷ []) (λ _. tt) (λ _. (h, tt))
    last (d ∷ r) k = (h, k)

starts-rstrip : (s : Text) → starts_plain s ≡ true → starts_plain (rstrip_hyphens s) ≡ true
unfolding rstrip_hyphens
starts-rstrip [] h = refl
starts-rstrip (c ∷ s) h = last (rstrip_hyphens s)
  where
    last :
        (r : Text)
        → starts_plain (elim r [ [] ↦ if c == 45 then [] else c ∷ [] | d ∷ r ↦ c ∷ d ∷ r ]) ≡ true
    last [] = ground arith
    last (d ∷ r) = h

ends-rstrip : (s : Text) → Letters s → ends_plain (rstrip_hyphens s) ≡ true
unfolding rstrip_hyphens
ends-rstrip [] h = refl
ends-rstrip (c ∷ s) (h, hs) = last (rstrip_hyphens s) (ends-rstrip s hs)
  where
    last :
        (r : Text)
        → ends_plain r ≡ true
        → ends_plain (elim r [ [] ↦ if c == 45 then [] else c ∷ [] | d ∷ r ↦ c ∷ d ∷ r ]) ≡ true
    last [] k = ground arith
    last (d ∷ r) k = k

length-rstrip : (s : Text) → length (rstrip_hyphens s) ≤ length s
unfolding rstrip_hyphens
length-rstrip [] = omega arith
length-rstrip (c ∷ s) = last (rstrip_hyphens s) (length-rstrip s)
  where
    last :
        (r : Text)
        → length r ≤ length s
        → length (elim r [ [] ↦ if c == 45 then [] else c ∷ [] | d ∷ r ↦ c ∷ d ∷ r ])
          ≤ length (c ∷ s)
    last [] k = ground arith
    last (d ∷ r) k = omega (arith, k)

Letters-take : (n : ℕ) (s : Text) → Letters s → Letters (take n s)
Letters-take zero s h = tt
Letters-take (suc n) [] h = tt
Letters-take (suc n) (c ∷ s) (h, hs) = (h, Letters-take n s hs)

starts-take : (n : ℕ) (s : Text) → starts_plain s ≡ true → starts_plain (take n s) ≡ true
starts-take zero s h = refl
starts-take (suc n) [] h = refl
starts-take (suc n) (c ∷ s) h = h

length-take : (n : ℕ) (s : Text) → length (take n s) ≤ n
length-take zero s = omega arith
length-take (suc n) [] = omega arith
length-take (suc n) (c ∷ s) = omega (arith, length-take n s)

IsSlug-book : (max_chars : ℕ) → 4 ≤ max_chars → IsSlug max_chars (codes "book")
IsSlug-book max_chars h = record {
  letters = (refl, (refl, (refl, (refl, tt))));
  starts = refl;
  ends = refl;
  some_chars = omega arith;
  not_too_many = h;
}

IsSlug-or_book :
    (max_chars : ℕ) (s : Text)
    → 4 ≤ max_chars
    → Letters s
    → starts_plain s ≡ true
    → ends_plain s ≡ true
    → length s ≤ max_chars
    → IsSlug max_chars (if is_empty s then codes "book" else s)
IsSlug-or_book max_chars [] h l a b n = IsSlug-book max_chars h
IsSlug-or_book max_chars (c ∷ s) h l a b n = record {
  letters = l;
  starts = a;
  ends = b;
  some_chars = omega arith;
  not_too_many = n;
}

-- Whatever the title, the slug has some lower case letters, digits and hyphens, at most max_chars, with no hyphen at
-- either end, if max_chars is at least 4.
pub make_slug-IsSlug :
    (nfkd : Text → Text) (title : Text) (max_chars : ℕ)
    → 4 ≤ max_chars
    → IsSlug max_chars (make_slug nfkd title max_chars)
unfolding make_slug
make_slug-IsSlug nfkd title max_chars h =
    let kept = select is_kept (map ascii_lower (select (λ c. ltb c 128) (nfkd title))) in
    let hyphened =
      Letters-hyphenate false kept
        (All-select is_kept (map ascii_lower (select (λ c. ltb c 128) (nfkd title)))) in
    let left = Letters-lstrip (hyphenate false kept) hyphened in
    let both = Letters-rstrip (lstrip_hyphens (hyphenate false kept)) left in
    let starts =
      starts-rstrip (lstrip_hyphens (hyphenate false kept))
        (starts-lstrip (hyphenate false kept) hyphened) in
    let stripped = rstrip_hyphens (lstrip_hyphens (hyphenate false kept)) in
    IsSlug-or_book max_chars (rstrip_hyphens (take max_chars stripped)) h
      (Letters-rstrip (take max_chars stripped) (Letters-take max_chars stripped both))
      (starts-rstrip (take max_chars stripped) (starts-take max_chars stripped starts))
      (ends-rstrip (take max_chars stripped) (Letters-take max_chars stripped both))
      (omega (arith, length-rstrip (take max_chars stripped), length-take max_chars stripped))
