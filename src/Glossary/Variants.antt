-- ===== src/Glossary/Variants.antt =====
-- `_deduplicate_spelling_variants` of src/transpose/pipeline/glossary.py, with `normalize_romanized_term` of
-- src/transpose/utils/unicode.py.
use transpose.Prelude.{
  ℕ, ◌+◌, ◌-◌, Bool, true, false, not, ◌&&◌, ◌||◌, Option, some, List, [], ◌∷◌, ◌++◌, length, take,
  drop, map, flatten, list_eq, ltb, ◌==◌, max, if◌then◌else◌,
}
use transpose.Text.{Text, codes, strip, is_empty, is_space}
use transpose.Glossary.Terms.{TermSource, Data, update, is_in, is_some_text, is_seed}

-- `t.endswith(suffix)`
abbrev pub ends_with : Text → Text → Bool
ends_with suffix t =
    list_eq (drop (length t - length suffix) t) suffix && not (ltb (length t) (length suffix))

-- `re.sub(r"[\s\-]+", "", t)`
unfoldable pub remove_separators : Text → Text
remove_separators [] = []
remove_separators (c ∷ t) =
    let rest = remove_separators t in if is_space c || c == 45 then rest else c ∷ rest

abbrev pub cut_suffix : Text → List Text → Text
cut_suffix t [] = t
cut_suffix t (s ∷ ss) =
    if ltb 3 (length t) && ends_with s t then take (length t - length s) t else cut_suffix t ss

unfoldable pub normalize_romanized_term : (Text → Text) → Text → Text
unfolding remove_separators
normalize_romanized_term lower term =
    cut_suffix (remove_separators (strip (lower term))) (codes "ha" ∷ codes "ah" ∷ codes "a" ∷ [])

abbrev pub longest : List Text → ℕ
longest [] = 0
longest (d ∷ ds) = max (length d) (longest ds)

-- `x < y` on tuples, by the comparison of the first components and that of the rest.
abbrev pub lex : ℕ → ℕ → Bool → Bool
lex a b rest = if ltb a b then true else if ltb b a then false else rest

abbrev pub rank : Option TermSource → ℕ
rank s = if is_seed s then 1 else 0

-- `_sort_key(x) < _sort_key(y)`; a spelling that is shorter has the greater key.
abbrev pub key_lt : Text × Data → Text × Data → Bool
key_lt (s, d) (t, e) = lex (rank d.source) (rank e.source) (
    lex (longest d.definitions) (longest e.definitions)
      (lex d.occurrences e.occurrences (ltb (length t) (length s))))

-- `sorted(group, key=_sort_key, reverse=True)`, which keeps the order of equal keys.
unfoldable pub insert_desc : Text × Data → List (Text × Data) → List (Text × Data)
insert_desc x [] = x ∷ []
insert_desc x (y ∷ ys) = let rest = insert_desc x ys in if key_lt x y then y ∷ rest else x ∷ y ∷ ys

unfoldable pub sort_desc : List (Text × Data) → List (Text × Data)
unfolding insert_desc
sort_desc [] = []
sort_desc (x ∷ xs) = insert_desc x (sort_desc xs)

abbrev pub add_new : List Text → List Text → List Text
add_new definitions [] = definitions
add_new definitions (d ∷ ds) =
    add_new (if is_in d definitions then definitions else definitions ++ d ∷ []) ds

-- One variant merged into the canonical entry.
unfoldable pub absorb : Data → Text × Data → Data
absorb d (term, other) = record {
  original_script = if is_empty d.original_script then other.original_script else d.original_script;
  definitions = add_new d.definitions other.definitions;
  source = if is_seed other.source then some TermSource.seed else d.source;
  occurrences = d.occurrences + other.occurrences;
  first_chapter =
      if not (is_some_text d.first_chapter) && is_some_text other.first_chapter
      then other.first_chapter
      else d.first_chapter;
  variants = d.variants ++ term ∷ [];
}

unfoldable pub absorb_all : Data → List (Text × Data) → Data
unfolding absorb
absorb_all d [] = d
absorb_all d (x ∷ xs) = absorb_all (absorb d x) xs

abbrev pub canonical : List (Text × Data) → List (Text × Data)
canonical [] = []
canonical ((term, d) ∷ others) = (term, absorb_all d others) ∷ []

-- A group of one is taken as it is.
unfoldable pub merge_group : List (Text × Data) → List (Text × Data)
unfolding sort_desc absorb_all
merge_group [] = []
merge_group (x ∷ []) = x ∷ []
merge_group (x ∷ y ∷ group) = canonical (sort_desc (x ∷ y ∷ group))

unfoldable pub buckets_from :
    (Text → Text)
    → List (Text × Data)
    → List (Text × List (Text × Data))
    → List (Text × List (Text × Data))
unfolding update
buckets_from normalize [] buckets = buckets
buckets_from normalize (x ∷ items) buckets =
    buckets_from normalize items (update [] (λ group. group ++ x ∷ []) (normalize x.0) buckets)

-- The keys of `term_data` differ, so each group adds an item to `merged`.
unfoldable pub deduplicate_spelling_variants :
    (Text → Text) → List (Text × Data) → List (Text × Data)
unfolding buckets_from merge_group
deduplicate_spelling_variants normalize term_data =
    flatten (map (λ b. merge_group b.1) (buckets_from normalize term_data []))
