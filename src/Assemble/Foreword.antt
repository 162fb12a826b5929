-- ===== src/Assemble/Foreword.antt =====
-- `_clean_foreword` and `_generate_foreword` of src/transpose/pipeline/assemble.py.
use transpose.Prelude.{
  Bool, true, false, ◌&&◌, ◌||◌, Option, none, some, List, [], ◌∷◌, ◌++◌, map, take, ◌==◌,
  if◌then◌else◌,
}
use transpose.Text.{Text, codes, rstrip, strip, is_blank}
use transpose.Glossary.Stage.{join_texts}
use transpose.Assemble.{Term}
use transpose.Assemble.Patterns.{Pattern, word, one_of, matches, found, lines_of}

-- `.*?` in front of the part: what follows its first match.
unfoldable pub search : Pattern → Pattern
search p [] = p []
search p (c ∷ s) = let rest = search p s in elim (p (c ∷ s)) [ some r ↦ some r | none ↦ rest ]

-- `\[.*?name.*?\]`
abbrev pub has_placeholder : Text → Bool
has_placeholder line = found (
    matches
      (search (one_of (λ c. c == b'['))
        ∷ search (word (codes "name"))
        ∷ search (one_of (λ c. c == b']'))
        ∷ [])
      line)

-- `,?\s*$`
abbrev pub ends_line : Text → Bool
ends_line [] = true
ends_line (c ∷ s) = is_blank (c ∷ s) || (c == b',' && is_blank s)

-- Whether an alternative matches and the line ends behind it.
abbrev pub ends_line_after : Option Text → Bool
ends_line_after none = false
ends_line_after (some rest) = ends_line rest

-- `.* regards,?\s*$`
unfoldable pub ends_in_regards : Text → Bool
unfolding word is_blank
ends_in_regards [] = false
ends_in_regards (c ∷ s) = ends_line_after (word (codes " regards") (c ∷ s)) || ends_in_regards s

-- `^(Warm regards|Sincerely|With .* regards|Yours),?\s*$`
abbrev pub is_sign_off : Text → Bool
is_sign_off line =
    ends_line_after (word (codes "Warm regards") line)
    || (ends_line_after (word (codes "Sincerely") line)
        || (elim (word (codes "With ") line) [ none ↦ false | some rest ↦ ends_in_regards rest ]
            || ends_line_after (word (codes "Yours") line)))

-- `while lines and …(lines[-1]): lines.pop()`
unfoldable pub pop_while : (Text → Bool) → List Text → List Text
pop_while p [] = []
pop_while p (l ∷ ls) = elim (pop_while p ls) [ [] ↦ if p l then [] else l ∷ [] | m ∷ r ↦ l ∷ m ∷ r ]

-- `_clean_foreword`
unfoldable pub clean_foreword : Text → Text
unfolding rstrip lines_of pop_while matches search word one_of is_blank ends_in_regards strip
clean_foreword text =
    let lines = pop_while has_placeholder (lines_of (rstrip text)) in
    rstrip (join_texts (codes "\n") (pop_while (λ l. is_sign_off (strip l)) lines))

-- The prompt of `_generate_foreword`.
abbrev pub foreword_prompt : Text → List Term → Text
foreword_prompt book_title cultural_terms =
    codes "Write a Translator's Foreword (250-400 words) for the English translation of \""
    ++ (book_title
        ++ (codes
              "\".\n\nThis foreword should:\n1. Explain the literary and cultural translation approach — not a literal translation but a cultural bridge\n2. Explain why certain words are preserved in their original language: "
            ++ (join_texts (codes ", ") (take 15 (map (λ t. t.term) cultural_terms))
                ++ codes
                    "\n3. Help the reader understand these preserved words add authenticity and cultural depth\n4. Be written in a warm, scholarly tone appropriate for a published eBook\n5. Address the reader directly (\"Dear Reader\" or similar)\n\nWrite ONLY the foreword text. Do not include a title — it will be added separately. Do not include a sign-off with a placeholder name like '[Translator\\'s Name]' — end naturally without a signature block.")))
