-- ===== src/Workspace/Markup.antt =====
-- The markup of the landing page of src/transpose/pipeline/workspace.py.
use transpose.Prelude.{
  ℕ, String, ◌≡◌, inl, inr, refl, sym, ap, ◌∙◌, Bool, true, false, not, ◌&&◌, ◌||◌, Option, none,
  some, List, [], ◌∷◌, ◌++◌, take, select, list_eq, ◌==◌, Bool-cases, append_assoc, if◌then◌else◌,
}
use transpose.Text.{Text, codes}
use transpose.Assemble.Render.{replace_char}
use transpose.Workspace.{Json, text, plain, object, Fields, empty, get}
use transpose.Workspace.Landing.{
  Python, truthy, get_default, share_of, escape, Hole, Piece, literal, value, landing_template,
  format, number_of_pages, description_of, translation_date, values, raw_value, is_escaped, Hole,
  is_null, generate_landing_html, og_title_hole, og_description_hole, og_url_hole, og_image_hole,
  page_title_hole, title_hole, author_hole, description_hole, translated_url_hole, source_url_hole,
  source_lang_hole, target_lang_hole, page_count_hole, translation_date_hole, or_value, first_chars,
  page_from, with_share,
}

-- `<`, `>` and the two quotation marks.
unfoldable pub is_markup : ℕ → Bool
is_markup c = c == b'<' || (c == b'>' || (c == 34 || c == 39))

-- The signs of markup in a text, in order.
abbrev pub markup : Text → Text
markup s = select is_markup s

pub select-append : (p : ℕ → Bool) (s t : Text) → select p (s ++ t) ≡ select p s ++ select p t
unfolding select
select-append p [] t = refl
select-append p (c ∷ s) t = elim (Bool-cases (p c)) [
  | inl e ↦ rw e (ap (λ l. c ∷ l) (select-append p s t))
  | inr e ↦ rw e (select-append p s t)
]

replace_char-append :
    (c : ℕ) (new s t : Text)
    → replace_char c new (s ++ t) ≡ replace_char c new s ++ replace_char c new t
unfolding replace_char
replace_char-append c new [] t = refl
replace_char-append c new (d ∷ s) t = elim (Bool-cases (d == c)) [
  | inl e ↦ rw e (
      ap (λ l. new ++ l) (replace_char-append c new s t)
      ∙ sym (append_assoc new (replace_char c new s) (replace_char c new t)))
  | inr e ↦ rw e (ap (λ l. d ∷ l) (replace_char-append c new s t))
]

escape-append : (s t : Text) → escape (s ++ t) ≡ escape s ++ escape t
unfolding escape
escape-append s t =
    rw
      (
        replace_char-append, replace_char-append, replace_char-append, replace_char-append,
        replace_char-append,
      )
      refl

escape-char : (c : ℕ) → markup (escape (c ∷ [])) ≡ []
unfolding escape replace_char is_markup select
escape-char c = elim (Bool-cases (c == b'&')) [
  | inl e ↦ rw e refl
  | inr e ↦ rw e (elim (Bool-cases (c == b'<')) [
    | inl f ↦ rw f refl
    | inr f ↦ rw f (elim (Bool-cases (c == b'>')) [
      | inl g ↦ rw g refl
      | inr g ↦ rw g (elim (Bool-cases (c == 34)) [
        | inl h ↦ rw h refl
        | inr h ↦
            rw h
              (elim (Bool-cases (c == 39)) [ inl i ↦ rw i refl | inr i ↦ rw (i, f, g, h, i) refl ])
      ])
    ])
  ])
]

markup-escape : (s : Text) → markup (escape s) ≡ []
markup-escape [] = unfold escape replace_char select in refl
markup-escape (c ∷ s) =
    ap markup (escape-append (c ∷ []) s)
    ∙ (select-append is_markup (escape (c ∷ [])) (escape s)
        ∙ rw (escape-char c, markup-escape s) refl)

-- The markup of the template.
abbrev pub template_markup : List Piece → Text
template_markup [] = []
template_markup (literal t ∷ pieces) = markup t ++ template_markup pieces
template_markup (value h ∷ pieces) = template_markup pieces

markup-format :
    (f : Hole → Text) (pieces : List Piece)
    → ((h : Hole) → markup (f h) ≡ [])
    → markup (format f pieces) ≡ template_markup pieces
unfolding format
markup-format f [] none_in = unfold select in refl
markup-format f (literal t ∷ pieces) none_in =
    select-append is_markup t (format f pieces)
    ∙ ap (λ l. markup t ++ l) (markup-format f pieces none_in)
markup-format f (value h ∷ pieces) none_in =
    select-append is_markup (f h) (format f pieces)
    ∙ rw (none_in h) (markup-format f pieces none_in)

-- A value that is missing, `null` or a text.
abbrev pub IsTextual : Option Json → Type 0
IsTextual none = Unit {0}
IsTextual (some (text t)) = Unit {0}
IsTextual (some (plain t)) = is_null t ≡ true
IsTextual (some (object f)) = ⊥

IsTextual-get_default :
    (key : String) (default : Json) (metadata : Fields)
    → IsTextual (some default)
    → IsTextual (get key metadata)
    → IsTextual (some (get_default key default metadata))
unfolding get_default
IsTextual-get_default key default metadata d h = by_value (get key metadata) h
  where
    by_value :
        (v : Option Json)
        → IsTextual v
        → IsTextual (some (elim v as (λ _. Json) [ none ↦ default | some w ↦ w ]))
    by_value none k = d
    by_value (some w) k = k

module _ (py : Python) where
  IsTextual-or_value :
      (v default : Json)
      → IsTextual (some v)
      → IsTextual (some default)
      → IsTextual (some (or_value py v default))
  IsTextual-or_value v default h d = elim (Bool-cases (truthy py v)) [
    | inl e ↦ rw e h
    | inr e ↦ rw e d
  ]

  -- A textual value that counts as true is a text.
  truthy-text : (v : Json) → IsTextual (some v) → truthy py v ≡ true → (t : Text) × (v ≡ text t)
  unfolding truthy
  truthy-text (text t) h e = (t, refl)
  truthy-text (plain t) h e = let no : not true && py.is_truthy t ≡ true = (rw h at e) in cc
  truthy-text (object f) h e = absurd h

  text_or :
      (v : Json) (t : Text) → IsTextual (some v) → (u : Text) × (or_value py v (text t) ≡ text u)
  text_or v t h = elim (Bool-cases (truthy py v)) [
    | inl e ↦ rw e (truthy-text v h e)
    | inr e ↦ rw e (t, refl)
  ]

  cut_or :
      (n : ℕ) (v : Json) (t : Text)
      → IsTextual (some v)
      → (u : Text) × ((if truthy py v then first_chars py n v else some (text t)) ≡ some (text u))
  cut_or n v t h = elim (Bool-cases (truthy py v)) [
    | inl e ↦ let (u, f) = truthy-text v h e in rw e (take n u, rw f refl)
    | inr e ↦ rw e (t, refl)
  ]

module _ (py : Python) (env_image : Text) where
  description_lem :
      (metadata : Fields)
      → IsTextual (get "translator_note" metadata)
      → (t : Text) × (description_of py env_image metadata ≡ text t)
  unfolding description_of
  description_lem metadata h = text_or py _ _ (
      IsTextual-or_value py (get_default "translator_note" (text []) metadata) (text [])
        (IsTextual-get_default "translator_note" (text []) metadata tt h) tt)

  translation_date_lem :
      (metadata share : Fields)
      → IsTextual (get "generated_at" share)
      → IsTextual (get "updated_at" metadata)
      → (t : Text) × (translation_date py env_image metadata share ≡ some (text t))
  unfolding translation_date
  translation_date_lem metadata share h k = cut_or py 10 _ _ (
      IsTextual-or_value py (get_default "generated_at" (plain (codes "null")) share)
        (get_default "updated_at" (text []) metadata)
        (IsTextual-get_default "generated_at" (plain (codes "null")) share (unfold list_eq in refl)
          h)
        (IsTextual-get_default "updated_at" (text []) metadata tt k))

  markup-raw :
      (metadata share : Fields) (date og_description : Json)
      → markup (number_of_pages py env_image metadata) ≡ []
      → (h : Hole) → is_escaped h ≡ false
      → markup (raw_value py env_image metadata share date og_description h) ≡ []
  unfolding raw_value is_escaped
  markup-raw metadata share date og_description n og_title_hole e = cc
  markup-raw metadata share date og_description n og_description_hole e = cc
  markup-raw metadata share date og_description n og_url_hole e = cc
  markup-raw metadata share date og_description n og_image_hole e = cc
  markup-raw metadata share date og_description n page_title_hole e = cc
  markup-raw metadata share date og_description n title_hole e = cc
  markup-raw metadata share date og_description n author_hole e = cc
  markup-raw metadata share date og_description n description_hole e = cc
  markup-raw metadata share date og_description n translated_url_hole e = cc
  markup-raw metadata share date og_description n source_url_hole e = cc
  markup-raw metadata share date og_description n source_lang_hole e = cc
  markup-raw metadata share date og_description n target_lang_hole e = cc
  markup-raw metadata share date og_description n page_count_hole e = n
  markup-raw metadata share date og_description n translation_date_hole e = cc

  -- What stands in the holes has no markup.
  markup-values :
      (metadata share : Fields) (date og_description : Json)
      → markup (number_of_pages py env_image metadata) ≡ []
      → (h : Hole) → markup (values py env_image metadata share date og_description h) ≡ []
  unfolding values
  markup-values metadata share date og_description n h = elim (Bool-cases (is_escaped h)) [
    | inl e ↦ rw e (markup-escape (raw_value py env_image metadata share date og_description h))
    | inr e ↦ rw e (markup-raw metadata share date og_description n h e)
  ]

share_lem :
    (py : Python) (metadata share : Fields)
    → get "share" metadata ≡ some (object share)
    → share_of py (get_default "share" (object empty) metadata) ≡ some share
unfolding share_of get_default
share_lem py metadata share e = rw (get_default, e) refl

-- If the metadata has a share block that is an object, if the translator's note, the time of the share block and the
-- time of the update are texts, `null` or missing, and the number of pages is printed without a sign of markup, then the
-- page is made, and its signs of markup are those of the template, in order, whatever else the metadata holds.
pub generate_landing_html-markup :
    (py : Python) (env_image : Text) (metadata share : Fields)
    → get "share" metadata ≡ some (object share)
    → IsTextual (get "translator_note" metadata)
    → IsTextual (get "generated_at" share)
    → IsTextual (get "updated_at" metadata)
    → markup (number_of_pages py env_image metadata) ≡ []
    → (page : Text) × (generate_landing_html py env_image metadata ≡ some page)
      × (markup page ≡ template_markup landing_template)
unfolding generate_landing_html
generate_landing_html-markup py env_image metadata share e note generated updated number =
    let (d, described) = description_lem py env_image metadata note in
    let (t, dated) = translation_date_lem py env_image metadata share generated updated in
    let og : Json = text (take 200 d) in
    (
      format (values py env_image metadata share (text t) og) landing_template,
      ap (with_share py env_image metadata) (share_lem py metadata share e)
          ∙ (ap
                (λ x.
                  page_from py env_image metadata share x
                    (first_chars py 200 (description_of py env_image metadata)))
                dated
              ∙ ap
                  (λ x.
                    page_from py env_image metadata share (some (text t)) (first_chars py 200 x))
                  described),
      markup-format _ landing_template
          (markup-values py env_image metadata share (text t) og number),
    )
