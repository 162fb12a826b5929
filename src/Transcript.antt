-- ===== src/Transcript.antt =====
-- The read-along cues of src/transpose/pipeline/transcript.py. `len(current) >= words_per_cue * 0.6` is compared by
-- products: the rounded product is exact where the true one is an integer.
pub mod Stamps
pub mod Reader
pub mod Files
pub mod Timed
mod Tests
use transpose.Prelude.{
  flatten, ℕ, ◌*◌, ◌≤◌, ◌<◌, ◌≡◌, inl, inr, refl, Bool, true, false, ◌&&◌, ◌||◌, List, [], ◌∷◌,
  ◌++◌, max, All, leb, length, ◌==◌, if◌then◌else◌, Bool-cases, append_assoc, ◌∙◌, ap, arith,
  length-append,
}
use transpose.Text.{Text, is_empty, rstrip}

pub record WordTiming : Type 0 where
  pub text : Text
  pub start_ms : ℕ
  pub end_ms : ℕ

-- `.endswith((".", "!", "?"))`
unfoldable pub stops : Text → Bool
stops [] = false
stops (c ∷ []) = c == b'.' || (c == b'!' || c == b'?')
stops (c ∷ d ∷ s) = stops (d ∷ s)

-- Whether `current`, with its last word `wt`, is complete.
unfoldable pub closes : ℕ → List WordTiming → WordTiming → Bool
closes words_per_cue current wt =
    (stops (rstrip wt.text) && leb (3 * words_per_cue) (5 * length current))
    || leb words_per_cue (length current)

-- The loop, and what is left when it is over.
unfoldable pub group_from : ℕ → List WordTiming → List WordTiming → List (List WordTiming)
unfolding closes stops
group_from words_per_cue current [] = if is_empty current then [] else current ∷ []
group_from words_per_cue current (wt ∷ rest) =
    let grown = current ++ wt ∷ [] in
    let closed = closes words_per_cue grown wt in
    let cues = group_from words_per_cue (if closed then [] else grown) rest in
    if closed then grown ∷ cues else cues

-- `_group_into_cues`
unfoldable pub group_into_cues : List WordTiming → ℕ → List (List WordTiming)
unfolding group_from
group_into_cues word_timings words_per_cue =
    if is_empty word_timings then [] else group_from words_per_cue [] word_timings

-- A cue that is not the last: full, or a sentence's end after three fifths of the words.
pub data IsCut (words_per_cue : ℕ) : List WordTiming → Type 0 where
  full : {cue : List WordTiming} → words_per_cue ≤ length cue → IsCut words_per_cue cue
  sentence :
      (cue : List WordTiming) (wt : WordTiming)
      → stops (rstrip wt.text) ≡ true
      → 3 * words_per_cue ≤ 5 * length (cue ++ wt ∷ [])
      → IsCut words_per_cue (cue ++ wt ∷ [])

abbrev pub AllButLast : (List WordTiming → Type 0) → List (List WordTiming) → Type 0
AllButLast P [] = Unit {0}
AllButLast P (c ∷ []) = Unit {0}
AllButLast P (c ∷ d ∷ cs) = P c × AllButLast P (d ∷ cs)

-- What a grouping of words is: no word is lost, repeated or moved, a cue has a word and at most
-- `words_per_cue` (one if that is 0), and every cue but the last ends where a cue may end.
pub record IsGrouping (words_per_cue : ℕ) (words : List WordTiming) (cues : List (List WordTiming))
    : Type 0 where
  pub kept : flatten cues ≡ words
  pub sized : All (λ c. (1 ≤ length c) × (length c ≤ max words_per_cue 1)) cues
  pub cut : AllButLast (IsCut words_per_cue) cues

IsCut-cons :
    {n : ℕ} {c : List WordTiming} (cs : List (List WordTiming))
    → IsCut n c
    → AllButLast (IsCut n) cs
    → AllButLast (IsCut n) (c ∷ cs)
IsCut-cons [] h t = tt
IsCut-cons (d ∷ ds) h t = (h, t)

-- What closes a cue is a place where a cue may end.
closes-IsCut :
    (n : ℕ) (current : List WordTiming) (wt : WordTiming)
    → closes n (current ++ wt ∷ []) wt ≡ true
    → IsCut n (current ++ wt ∷ [])
unfolding closes
closes-IsCut n current wt h = elim (Bool-cases (leb n (length (current ++ wt ∷ [])))) [
  | inl e ↦ full (ground arith)
  | inr e ↦ sentence current wt (ground arith) (ground arith)
]

-- A cue that stays open has room for another word.
open_has_room :
    (n : ℕ) (current : List WordTiming) (wt : WordTiming)
    → closes n current wt ≡ false
    → length current < max n 1
unfolding closes
open_has_room n current wt h = ground arith

group_from_lem :
    (n : ℕ) (current rest : List WordTiming)
    → length current < max n 1
    → IsGrouping n (current ++ rest) (group_from n current rest)
unfolding group_from
group_from_lem n [] [] h = record { kept = refl; sized = tt; cut = tt }
group_from_lem n (c ∷ cs) [] h = record {
  kept = refl;
  sized = ((omega arith, omega arith), tt);
  cut = tt;
}
group_from_lem n current (wt ∷ rest) h = elim (Bool-cases (closes n (current ++ wt ∷ []) wt)) [
  | inl e ↦
      let r = group_from_lem n [] rest (omega arith) in
      rw e (record {
        kept = ap (λ l. (current ++ wt ∷ []) ++ l) r.kept ∙ append_assoc current (wt ∷ []) rest;
        sized = (
          (
            omega (arith, length-append current (wt ∷ [])),
            omega (arith, length-append current (wt ∷ [])),
          ),
          r.sized,
        );
        cut = IsCut-cons _ (closes-IsCut n current wt e) r.cut;
      })
  | inr e ↦
      let r = group_from_lem n (current ++ wt ∷ []) rest (open_has_room n _ wt e) in
      rw e (record {
        kept = r.kept ∙ append_assoc current (wt ∷ []) rest;
        sized = r.sized;
        cut = r.cut;
      })
]

-- The cues of a transcript lose, repeat and move no word; each has a word and at most `words_per_cue`
-- of them, or one if that is 0; and each but the last is full or ends a sentence after at least three
-- fifths of `words_per_cue` words.
pub group_into_cues_lem :
    (words : List WordTiming) (n : ℕ) → IsGrouping n words (group_into_cues words n)
unfolding group_into_cues
group_into_cues_lem [] n = record { kept = refl; sized = tt; cut = tt }
group_into_cues_lem (w ∷ ws) n = group_from_lem n [] (w ∷ ws) (omega arith)
