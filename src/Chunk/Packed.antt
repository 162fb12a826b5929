-- ===== src/Chunk/Packed.antt =====
-- The loop of `_split_oversized_paragraph` of src/transpose/pipeline/chunk.py, which packs sentences into parts.
use transpose.Prelude.{
  ℕ, ◌+◌, ◌≡◌, refl, sym, ap, ◌∙◌, inl, inr, not, ◌&&◌, List, [], ◌∷◌, ◌++◌, length, All,
  Bool-cases, append-nil, append_assoc, ltb,
}
use transpose.Text.{Text, strip, is_blank, is_empty, is_space}
use transpose.Exec.{Outcome, ok}
use transpose.Chunk.Joined.{visible, visible-append}
use transpose.Chunk.Within.{visible-strip, visible-blank}
use transpose.Chunk.Split.{SplitError, Packing, flushed, pack_short, pack_sentence, pack}
use transpose.Chunk.Sentences.{visible_all, visible_all-append, visible_all-snoc}

-- Some parts come out, and under `P` they are the text, white space aside.
pub record Split (P : Type 0) (text : Text) (out : Outcome SplitError (List Text)) : Type 0 where
  pub parts : List Text
  pub returned : out ≡ ok parts
  pub same : P → visible_all parts ≡ visible text

-- What a part of the loop has: its parts and the current text.
abbrev pub packed : Packing → Text
packed l = visible_all l.parts ++ visible l.current

pub visible-nil : visible [] ≡ []
unfolding visible
visible-nil = refl

module _ (encode : Text → List ℕ) (decode : List ℕ → Text) (target : ℕ) where
  flushed_lem :
      (l : Packing)
      → (visible_all (flushed encode decode target l).parts ≡ packed l)
        × (visible (flushed encode decode target l).current ≡ [])
  unfolding flushed
  flushed_lem l = elim (Bool-cases (is_blank l.current)) [
    | inl e ↦ rw (e, visible-blank l.current e) (sym (append-nil (visible_all l.parts)), refl)
    | inr e ↦ rw e (
      visible_all-snoc l.parts (strip l.current) ∙ rw (visible-strip l.current) refl,
      visible-nil,
    )
  ]

  joined :
      (current sentence : Text)
      → visible (strip (current ++ (32 ∷ sentence))) ≡ visible current ++ visible sentence
  joined current sentence =
      visible-strip (current ++ (32 ∷ sentence))
      ∙ (visible-append current (32 ∷ sentence) ∙ (unfold visible is_space in refl))

  packed-pack_short :
      (l : Packing) (s : Text)
      → packed (pack_short encode decode target l s) ≡ packed l ++ visible s
  unfolding pack_short
  packed-pack_short l s =
      elim (Bool-cases
        (not (is_empty l.current) && ltb target (l.current_tokens + length (encode s)))) [
          | inl e ↦ rw e (
              ap (λ t. t ++ visible s)
                (visible_all-snoc l.parts (strip l.current) ∙ rw (visible-strip l.current) refl))
          | inr e ↦ rw e (
              rw (joined l.current s)
                (sym (append_assoc (visible_all l.parts) (visible l.current) (visible s))))
        ]

  pack_sentence_lem :
      {P : Type 0} (deep : Text → Outcome SplitError (List Text)) (l : Packing) (s : Text)
      → Split P s (deep s)
      → (l' : Packing) × (pack_sentence encode decode target deep l s ≡ ok l')
        × (P → packed l' ≡ packed l ++ visible s)
  unfolding pack_sentence
  pack_sentence_lem deep l s d = elim (Bool-cases (ltb target (length (encode s)))) [
    | inl e ↦
        let (parts, current) = flushed_lem l in
        rw (pack_sentence, e, d.returned)
          (
            _,
            refl,
            λ p.
                rw
                  (
                    visible_all-append (flushed encode decode target l).parts d.parts,
                    current,
                    parts,
                    d.same p,
                  )
                  (append-nil (packed l ++ visible s)),
          )
    | inr e ↦ rw (pack_sentence, e) (_, refl, λ p. packed-pack_short l s)
  ]

  pub pack_lem :
      (P : Text → Type 0) (deep : Text → Outcome SplitError (List Text)) (l : Packing)
      (ss : List Text)
      → All (λ s. Split (P s) s (deep s)) ss
      → (parts : List Text) × (pack encode decode target deep l ss ≡ ok parts)
        × (All P ss → visible_all parts ≡ packed l ++ visible_all ss)
  unfolding pack
  pack_lem P deep l [] h = (_, refl, λ p. (flushed_lem l).0 ∙ sym (append-nil (packed l)))
  pack_lem P deep l (s ∷ ss) (d, h) =
      let (l', e, p) = pack_sentence_lem deep l s d in
      let (parts, r, q) = pack_lem P deep l' ss h in
      rw (pack, e)
        (
          parts,
          r,
          λ (k, ks).
              q ks
              ∙ (ap (λ t. t ++ visible_all ss) (p k)
                  ∙ append_assoc (packed l) (visible s) (visible_all ss)),
        )
