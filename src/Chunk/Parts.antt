-- ===== src/Chunk/Parts.antt =====
-- What `_split_oversized_paragraph` of src/transpose/pipeline/chunk.py makes of a paragraph.
use transpose.Prelude.{
  ℕ, suc, ◌≤◌, ◌⊎◌, ◌≡◌, refl, sym, ap, ◌∙◌, List, [], ◌∷◌, ◌++◌, length, length-append, map,
  flatten, All, arith,
}
use transpose.Text.{Text}
use transpose.Chunk.Joined.{visible, visible-append}
use transpose.Chunk.Split.{sentences_of, windows}
use transpose.Chunk.Sentences.{visible_all, flatten-windows}
use transpose.Chunk.Packed.{Split, visible-nil}

module _ (encode : Text → List ℕ) (decode : List ℕ → Text) (target : ℕ) where
  -- A text that is not split by sentences: it is short enough, or it is one sentence, and the tokens between two cuts,
  -- decoded by themselves, are together the text, white space aside.
  abbrev pub IsWhole : Text → Type 0
  IsWhole text =
      (length (encode text) ≤ target)
      ⊎ ((length (sentences_of text) ≤ 1)
          × (visible_all (map decode (windows (length (encode text)) target (encode text)))
              ≡ visible text))

  -- No cut of the tokens loses a character: the text or each of its sentences is such a one.
  abbrev pub IsSafe : Text → Type 0
  IsSafe text = IsWhole text ⊎ ((2 ≤ length (sentences_of text)) × All IsWhole (sentences_of text))

module _ (encode : Text → List ℕ) (decode : List ℕ → Text) (n : ℕ) where
  abbrev pub Cut : Text → Type 0
  Cut text =
      visible_all (map decode (windows (length (encode text)) (suc n) (encode text))) ≡ visible text

no_length : (s : Text) → length s ≡ 0 → s ≡ []
no_length [] h = refl
no_length (c ∷ s) h = absurd (omega (arith, h))

-- A cut between tokens loses nothing where each token stands for characters of its own.
module _ (encode : Text → List ℕ) (decode : List ℕ → Text) (n : ℕ)
    (decode-append : (xs ys : List ℕ) → decode (xs ++ ys) ≡ decode xs ++ decode ys)
    (decode-encode : (t : Text) → decode (encode t) ≡ t) where
  decode-nil : decode [] ≡ []
  decode-nil = no_length (decode []) (
      let e = ap length (decode-append [] []) ∙ length-append (decode []) (decode []) in
      omega (arith, e))

  visible-map : (ws : List (List ℕ)) → visible_all (map decode ws) ≡ visible (decode (flatten ws))
  visible-map [] = rw decode-nil (sym visible-nil)
  visible-map (w ∷ ws) =
      ap (λ l. visible (decode w) ++ l) (visible-map ws)
      ∙ (sym (visible-append (decode w) (decode (flatten ws)))
          ∙ ap visible (sym (decode-append w (flatten ws))))

  pub Cut-encode : (text : Text) → Cut encode decode n text
  Cut-encode text =
      visible-map (windows (length (encode text)) (suc n) (encode text))
      ∙ rw (flatten-windows (length (encode text)) n (encode text) (omega arith))
          (ap visible (decode-encode text))
