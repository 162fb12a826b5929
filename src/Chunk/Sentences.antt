-- ===== src/Chunk/Sentences.antt =====
-- What the sentences and the cuts of src/transpose/pipeline/chunk.py keep of a text.
use transpose.Prelude.{
  ℕ, zero, suc, ◌≤◌, ◌<◌, ◌≡◌, refl, sym, ap, ◌∙◌, inl, inr, true, false, List, [], ◌∷◌, ◌++◌,
  length, length-append, take, drop, map, flatten, All, Bool-cases, append-nil, append_assoc, arith,
}
use transpose.Text.{Text, is_blank, is_space}
use transpose.Chunk.Joined.{visible, visible-append}
use transpose.Chunk.Within.{visible-strip, visible-blank}
use transpose.Chunk.Split.{
  SplitPlace, inside, behind_end, in_gap, place_after, pieces_from, stripped, sentences_of, windows,
}

-- What is left of some texts without their white space, one behind the other.
abbrev pub visible_all : List Text → Text
visible_all parts = flatten (map visible parts)

pub visible_all-append :
    (ps qs : List Text) → visible_all (ps ++ qs) ≡ visible_all ps ++ visible_all qs
visible_all-append [] qs = refl
visible_all-append (p ∷ ps) qs =
    ap (λ l. visible p ++ l) (visible_all-append ps qs)
    ∙ sym (append_assoc (visible p) (visible_all ps) (visible_all qs))

pub visible_all-snoc :
    (ps : List Text) (p : Text) → visible_all (ps ++ p ∷ []) ≡ visible_all ps ++ visible p
visible_all-snoc ps p =
    visible_all-append ps (p ∷ []) ∙ ap (λ l. visible_all ps ++ l) (append-nil (visible p))

visible-nothing : (s : Text) → visible [] ++ visible s ≡ visible s
unfolding visible
visible-nothing s = refl

visible-space : (c : ℕ) (s : Text) → is_space c ≡ true → visible (c ∷ s) ≡ visible s
unfolding visible
visible-space c s e = rw e refl

-- A character that goes into the piece.
visible-into :
    (current : Text) (c : ℕ) (s : Text)
    → visible (current ++ c ∷ []) ++ visible s ≡ visible current ++ visible (c ∷ s)
visible-into current c s =
    rw (visible-append current (c ∷ []), visible-append (c ∷ []) s)
      (append_assoc (visible current) (visible (c ∷ [])) (visible s))

visible-pieces_from :
    (current : Text) (place : SplitPlace) (s : Text)
    → visible_all (pieces_from current place s) ≡ visible current ++ visible s
unfolding pieces_from
visible-pieces_from current place [] = unfold visible in refl
visible-pieces_from current inside (c ∷ s) =
    visible-pieces_from (current ++ c ∷ []) (place_after c) s ∙ visible-into current c s
visible-pieces_from current behind_end (c ∷ s) = elim (Bool-cases (is_space c)) [
  | inl e ↦ rw e (
      ap (λ l. visible current ++ l)
        (visible-pieces_from [] in_gap s ∙ (visible-nothing s ∙ sym (visible-space c s e))))
  | inr e ↦
      rw e (visible-pieces_from (current ++ c ∷ []) (place_after c) s ∙ visible-into current c s)
]
visible-pieces_from current in_gap (c ∷ s) = elim (Bool-cases (is_space c)) [
  | inl e ↦ rw e (
      visible-pieces_from current in_gap s
      ∙ ap (λ l. visible current ++ l) (sym (visible-space c s e)))
  | inr e ↦
      rw e (visible-pieces_from (current ++ c ∷ []) (place_after c) s ∙ visible-into current c s)
]

pub visible-stripped : (ss : List Text) → visible_all (stripped ss) ≡ visible_all ss
unfolding stripped
visible-stripped [] = refl
visible-stripped (s ∷ ss) = elim (Bool-cases (is_blank s)) [
  | inl e ↦ rw (e, visible-blank s e) (visible-stripped ss)
  | inr e ↦ rw (e, visible-strip s) (ap (λ l. visible s ++ l) (visible-stripped ss))
]

-- The sentences are the text, white space aside.
pub visible-sentences_of : (text : Text) → visible_all (sentences_of text) ≡ visible text
unfolding sentences_of
visible-sentences_of text =
    visible-stripped (pieces_from [] inside text)
    ∙ (visible-pieces_from [] inside text ∙ visible-nothing text)

not_blank-visible : (s : Text) → is_blank s ≡ false → 0 < length (visible s)
unfolding is_blank visible
not_blank-visible [] h = cc
not_blank-visible (c ∷ s) h = elim (Bool-cases (is_space c)) [
  | inl e ↦ let k : is_blank s ≡ false = (rw e at h) in rw e (not_blank-visible s k)
  | inr e ↦ rw e (omega arith)
]

abbrev pub HasText : Text → Type 0
HasText s = 0 < length (visible s)

stripped-HasText : (ss : List Text) → All HasText (stripped ss)
unfolding stripped
stripped-HasText [] = tt
stripped-HasText (s ∷ ss) = elim (Bool-cases (is_blank s)) [
  | inl e ↦ rw e (stripped-HasText ss)
  | inr e ↦ rw e (rw (visible-strip s) (not_blank-visible s e), stripped-HasText ss)
]

pub sentences_of-HasText : (text : Text) → All HasText (sentences_of text)
unfolding sentences_of
sentences_of-HasText text = stripped-HasText (pieces_from [] inside text)

pub visible-le : (s : Text) → length (visible s) ≤ length s
unfolding visible
visible-le [] = omega arith
visible-le (c ∷ s) = elim (Bool-cases (is_space c)) [
  | inl e ↦ rw e (omega (arith, visible-le s))
  | inr e ↦ rw e (omega (arith, visible-le s))
]

-- One of several sentences is shorter than all of them.
pub All-shorter :
    (n : ℕ) (ss : List Text) → length (visible_all ss) < n → All (λ s. length (visible s) < n) ss
All-shorter n [] h = tt
All-shorter n (s ∷ ss) h =
    let e = length-append (visible s) (visible_all ss) in
    (omega (arith, e, h), All-shorter n ss (omega (arith, e, h)))

take-drop {ℓ} : {A : Type ℓ} (n : ℕ) (xs : List A) → take n xs ++ drop n xs ≡ xs
take-drop zero xs = refl
take-drop (suc n) [] = refl
take-drop (suc n) (x ∷ xs) = ap (λ l. x ∷ l) (take-drop n xs)

length-drop_le : (n : ℕ) (xs : List ℕ) → length (drop n xs) ≤ length xs
length-drop_le zero xs = omega arith
length-drop_le (suc n) [] = omega arith
length-drop_le (suc n) (x ∷ xs) = omega (arith, length-drop_le n xs)

-- The windows are the tokens, if there are enough of them.
pub flatten-windows :
    (k n : ℕ) (tokens : List ℕ) → length tokens ≤ k → flatten (windows k (suc n) tokens) ≡ tokens
unfolding windows
flatten-windows zero n [] h = refl
flatten-windows zero n (t ∷ tokens) h = absurd (omega (arith, h))
flatten-windows (suc k) n [] h = refl
flatten-windows (suc k) n (t ∷ tokens) h =
    ap (λ l. t ∷ (take n tokens ++ l))
      (flatten-windows k n (drop n tokens) (omega (arith, h, length-drop_le n tokens)))
    ∙ ap (λ l. t ∷ l) (take-drop n tokens)
