-- ===== src/Chunk/Within.antt =====
-- A piece of text inside another one, white space aside.
use transpose.Prelude.{
  ◌≡◌, ◌⊎◌, inl, inr, refl, ap, ◌∙◌, true, false, List, [], ◌∷◌, ◌++◌, append_assoc, Bool-cases,
  if◌then◌else◌,
}
use transpose.Text.{Text, strip, lstrip, is_blank, is_space}
use transpose.Chunk.{Chunk}
use transpose.Chunk.Joined.{visible, visible-rstrip}
use transpose.Chunk.Loop.{Loop}

abbrev pub Any : {A : Type 0} → (A → Type 0) → List A → Type 0
Any P [] = ⊥
Any P (x ∷ xs) = P x ⊎ Any P xs

pub Any-left : {A : Type 0} (P : A → Type 0) (xs ys : List A) → Any P xs → Any P (xs ++ ys)
Any-left P [] ys h = absurd h
Any-left P (x ∷ xs) ys h = elim h [ inl p ↦ inl p | inr q ↦ inr (Any-left P xs ys q) ]

pub Any-last : {A : Type 0} (P : A → Type 0) (xs : List A) (y : A) → P y → Any P (xs ++ y ∷ [])
Any-last P [] y p = inl p
Any-last P (x ∷ xs) y p = inr (Any-last P xs y p)

-- `s` stands somewhere in `t`.
pub record Within (s t : Text) : Type 0 where
  pub before : Text
  pub after : Text
  pub whole : t ≡ before ++ (s ++ after)

pub Within-right : (s t u : Text) → Within s t → Within s (t ++ u)
Within-right s t u w = record {
  before = w.before;
  after = w.after ++ u;
  whole =
      ap (λ l. l ++ u) w.whole
      ∙ (append_assoc w.before (s ++ w.after) u
          ∙ ap (λ l. w.before ++ l) (append_assoc s w.after u));
}

pub Within-middle : (a s b : Text) → Within s (a ++ (s ++ b))
Within-middle a s b = record { before = a; after = b; whole = refl }

pub nothing-Within : (s : Text) → Within s [] → s ≡ []
nothing-Within [] w = refl
nothing-Within (c ∷ s) w = first_of_none w.before w.whole
  where
    first_of_none : (b : Text) → [] ≡ b ++ ((c ∷ s) ++ w.after) → c ∷ s ≡ []
    first_of_none [] e = cc
    first_of_none (d ∷ b) e = cc

visible-lstrip : (s : Text) → visible (lstrip s) ≡ visible s
unfolding visible lstrip
visible-lstrip [] = refl
visible-lstrip (c ∷ s) = elim (Bool-cases (is_space c)) [
  | inl e ↦ rw e (visible-lstrip s)
  | inr e ↦ rw e (ap (λ b. if b then visible s else c ∷ visible s) e)
]

pub visible-strip : (s : Text) → visible (strip s) ≡ visible s
unfolding strip
visible-strip s = visible-rstrip (lstrip s) ∙ visible-lstrip s

pub visible-blank : (s : Text) → is_blank s ≡ true → visible s ≡ []
unfolding visible is_blank
visible-blank [] h = refl
visible-blank (c ∷ s) h = elim (Bool-cases (is_space c)) [
  | inl e ↦ let k : is_blank s ≡ true = (rw e at h) in rw e (visible-blank s k)
  | inr e ↦ let k : false ≡ true = (rw e at h) in cc
]

-- The piece is in a chunk, white space aside; or it is nothing else.
abbrev pub Kept : Text → List Chunk → Type 0
Kept p chunks = (visible p ≡ []) ⊎ Any (λ c. Within (visible p) (visible c.source_text)) chunks

-- It is kept, or in the text of the chunk that is not saved yet.
abbrev pub InLoop : Text → Loop → Type 0
InLoop p l = Kept p l.chunks ⊎ Within (visible p) (visible l.current_chunk_text)

pub Kept-more : (p : Text) (xs ys : List Chunk) → Kept p xs → Kept p (xs ++ ys)
Kept-more p xs ys h = elim h [ inl e ↦ inl e | inr k ↦ inr (Any-left _ xs ys k) ]
