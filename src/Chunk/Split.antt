-- ===== src/Chunk/Split.antt =====
-- `_split_oversized_paragraph` of src/transpose/pipeline/chunk.py. `encode` and `decode` are the tokenizer's. The recursion
-- has fuel for one level more than the text has characters.
use transpose.Prelude.{
  ℕ, zero, suc, ◌+◌, Bool, true, false, not, ◌&&◌, ◌||◌, List, [], ◌∷◌, ◌++◌, length, take, drop,
  map, ltb, leb, ◌==◌, if◌then◌else◌,
}
use transpose.Text.{Text, strip, is_space, is_empty, is_blank}
use transpose.Exec.{Outcome, ok, raised}

pub data SplitError : Type 0 where
  value_error : SplitError
  out_of_fuel : SplitError

-- `[।॥.!?]`
unfoldable pub is_sentence_end : ℕ → Bool
is_sentence_end c = c == 0x964 || (c == 0x965 || (c == b'.' || (c == b'!' || c == b'?')))

-- Where the `re.split` stands: in a sentence, right behind the sign that ends one, or in the white space that follows.
pub data SplitPlace : Type 0 where
  inside behind_end in_gap : SplitPlace

abbrev pub place_after : ℕ → SplitPlace
place_after c = if is_sentence_end c then behind_end else inside

-- `re.split(r"(?<=[।॥.!?])\s+", text)`, with the piece so far.
unfoldable pub pieces_from : Text → SplitPlace → Text → List Text
unfolding is_space is_sentence_end
pieces_from current place [] = current ∷ []
pieces_from current inside (c ∷ s) = pieces_from (current ++ c ∷ []) (place_after c) s
pieces_from current behind_end (c ∷ s) =
    let ended = pieces_from [] in_gap s in
    let more = pieces_from (current ++ c ∷ []) (place_after c) s in
    if is_space c then current ∷ ended else more
pieces_from current in_gap (c ∷ s) =
    let ended = pieces_from current in_gap s in
    let more = pieces_from (current ++ c ∷ []) (place_after c) s in
    if is_space c then ended else more

-- `[s.strip() for s in … if s.strip()]`
unfoldable pub stripped : List Text → List Text
unfolding strip is_blank
stripped [] = []
stripped (s ∷ ss) = let rest = stripped ss in if is_blank s then rest else strip s ∷ rest

unfoldable pub sentences_of : Text → List Text
unfolding pieces_from stripped
sentences_of text = stripped (pieces_from [] inside text)

-- `tokens[i : i + n]` for each `i` of `range(0, len(tokens), n)`, so many at most.
unfoldable pub windows : ℕ → ℕ → List ℕ → List (List ℕ)
windows zero n tokens = []
windows (suc k) n [] = []
windows (suc k) n (t ∷ tokens) = take n (t ∷ tokens) ∷ windows k n (drop n (t ∷ tokens))

-- The local variables of the loop.
pub record Packing : Type 0 where
  pub parts : List Text
  pub current : Text
  pub current_tokens : ℕ

module _ (encode : Text → List ℕ) (decode : List ℕ → Text) (target_chunk_tokens : ℕ) where
  -- A `range` whose step is 0 raises.
  unfoldable pub hard_split : List ℕ → Outcome SplitError (List Text)
  unfolding windows stripped
  hard_split tokens =
      if target_chunk_tokens == 0
      then raised value_error
      else ok (stripped (map decode (windows (length tokens) target_chunk_tokens tokens)))

  unfoldable pub flushed : Packing → Packing
  unfolding strip is_blank
  flushed l =
      if is_blank l.current
      then l
      else record { parts = l.parts ++ strip l.current ∷ []; current = []; current_tokens = 0 }

  abbrev pub extended : Packing → Outcome SplitError (List Text) → Outcome SplitError Packing
  extended l (raised e) = raised e
  extended l (ok more) = ok (record l { parts = l.parts ++ more })

  -- A sentence that is not too long: it starts the next part, or it is put behind the current one.
  unfoldable pub pack_short : Packing → Text → Packing
  unfolding strip
  pack_short l sentence =
      let sentence_tokens = length (encode sentence) in
      if not (is_empty l.current) && ltb target_chunk_tokens (l.current_tokens + sentence_tokens)
      then record {
        parts = l.parts ++ strip l.current ∷ [];
        current = sentence;
        current_tokens = sentence_tokens;
      }
      else record l {
        current = strip (l.current ++ (32 ∷ sentence));
        current_tokens = l.current_tokens + sentence_tokens;
      }

  -- One sentence, with what the recursive call gives for it.
  unfoldable pub pack_sentence :
      (Text → Outcome SplitError (List Text)) → Packing → Text → Outcome SplitError Packing
  unfolding flushed pack_short
  pack_sentence deep l sentence = elim (ltb target_chunk_tokens (length (encode sentence))) [
    | true ↦ extended (flushed l) (deep sentence)
    | false ↦ ok (pack_short l sentence)
  ]

  unfoldable pub pack :
      (Text → Outcome SplitError (List Text)) → Packing → List Text → Outcome SplitError (List Text)
  unfolding pack_sentence flushed
  pack deep l [] = ok (flushed l).parts
  pack deep l (s ∷ ss) = elim (pack_sentence deep l s) [
    | raised e ↦ raised e
    | ok l' ↦ pack deep l' ss
  ]

  abbrev pub no_parts : Packing
  no_parts = record { parts = []; current = []; current_tokens = 0 }

  abbrev pub split_long :
      (Text → Outcome SplitError (List Text)) → List ℕ → List Text → Outcome SplitError (List Text)
  split_long deep tokens [] = hard_split tokens
  split_long deep tokens (s ∷ []) = hard_split tokens
  split_long deep tokens (s ∷ t ∷ ss) = pack deep no_parts (s ∷ t ∷ ss)

  unfoldable pub split_within : ℕ → Text → Outcome SplitError (List Text)
  unfolding sentences_of hard_split pack
  split_within zero text = raised out_of_fuel
  split_within (suc fuel) text = elim (leb (length (encode text)) target_chunk_tokens) [
    | true ↦ ok (text ∷ [])
    | false ↦ split_long (split_within fuel) (encode text) (sentences_of text)
  ]

  unfoldable pub split_oversized_paragraph : Text → Outcome SplitError (List Text)
  unfolding split_within
  split_oversized_paragraph text = split_within (suc (length text)) text

  abbrev pub or_nothing : Outcome SplitError (List Text) → List Text
  or_nothing (raised e) = []
  or_nothing (ok parts) = parts

  -- The parts that the loop of `run` takes.
  unfoldable pub parts_of : Text → List Text
  unfolding split_oversized_paragraph
  parts_of text = or_nothing (split_oversized_paragraph text)
