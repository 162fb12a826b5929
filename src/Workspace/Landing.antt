-- ===== src/Workspace/Landing.antt =====
-- The landing page of src/transpose/pipeline/workspace.py: `generate_landing_html`. `env_image` is `_DEFAULT_OG_IMAGE`, which
-- the environment sets.
use transpose.Prelude.{
  ℕ, String, Bool, true, false, not, ◌&&◌, Option, none, some, List, [], ◌∷◌, ◌++◌, take, list_eq,
  if◌then◌else◌,
}
use transpose.Text.{Text, codes, is_empty}
use transpose.Assemble.Render.{replace_char}
use transpose.Workspace.{Json, text, plain, object, Fields, empty, entry, get}

-- What Python makes of values other than texts and `None`: `str(v)`, `bool(v)` of a value that is no `dict`, and `v[:n]`,
-- which can raise.
pub record Python : Type 0 where
  pub str : Json → Text
  pub is_truthy : Text → Bool
  pub first_items : ℕ → Json → Option Json

abbrev pub is_null : Text → Bool
is_null t = list_eq t (codes "null")

unfoldable pub str : Python → Json → Text
unfolding list_eq
str py (text t) = t
str py (plain t) = if is_null t then codes "None" else py.str (plain t)
str py (object f) = py.str (object f)

unfoldable pub truthy : Python → Json → Bool
unfolding list_eq
truthy py (text t) = not (is_empty t)
truthy py (plain t) = not (is_null t) && py.is_truthy t
truthy py (object empty) = false
truthy py (object (entry k v f)) = true

abbrev pub first_chars : Python → ℕ → Json → Option Json
first_chars py n (text t) = some (text (take n t))
first_chars py n (plain t) = py.first_items n (plain t)
first_chars py n (object f) = py.first_items n (object f)

-- `metadata.get(key, default)`
unfoldable pub get_default : String → Json → Fields → Json
unfolding get
get_default key default metadata = elim (get key metadata) [ none ↦ default | some v ↦ v ]

abbrev pub or_value : Python → Json → Json → Json
or_value py v default = if truthy py v then v else default

-- `metadata.get("share", {}) or {}`, of which `get` is called.
unfoldable pub share_of : Python → Json → Option Fields
unfolding truthy
share_of py (object f) = some f
share_of py (text t) = if truthy py (text t) then none else some empty
share_of py (plain t) = if truthy py (plain t) then none else some empty

-- `html.escape(s, quote=True)`
unfoldable pub escape : Text → Text
unfolding replace_char
escape s = replace_char 39 (codes "&#x27;") (
    replace_char 34 (codes "&quot;") (
      replace_char b'>' (codes "&gt;")
        (replace_char b'<' (codes "&lt;") (replace_char b'&' (codes "&amp;") s))))

-- `_LANDING_CSS`
abbrev pub landing_css : Text
landing_css =
    codes
      "\n*, *::before, *::after { box-sizing: border-box; margin: 0; padding: 0; }\n\n:root {\n  --bg: #f5f2ee;\n  --card: #ffffff;\n  --ink: #1c1917;\n  --muted: #6b7280;\n  --accent: #b45309;\n  --accent-light: #fef3c7;\n  --btn-primary: #1c1917;\n  --btn-primary-text: #ffffff;\n  --btn-secondary: #e7e5e4;\n  --btn-secondary-text: #1c1917;\n  --radius: 12px;\n  --shadow: 0 4px 24px rgba(0,0,0,0.10), 0 1px 4px rgba(0,0,0,0.06);\n  --font: -apple-system, BlinkMacSystemFont, 'Segoe UI', Roboto, 'Helvetica Neue', Arial,\n    sans-serif;\n}\n\nhtml { font-size: 16px; -webkit-text-size-adjust: 100%; }\n\nbody {\n  font-family: var(--font);\n  background: var(--bg);\n  color: var(--ink);\n  min-height: 100vh;\n  display: flex;\n  flex-direction: column;\n  align-items: center;\n  padding: 2rem 1rem 4rem;\n}\n\n.brand {\n  font-size: 0.8rem;\n  letter-spacing: 0.15em;\n  text-transform: uppercase;\n  color: var(--muted);\n  margin-bottom: 2rem;\n  font-weight: 600;\n}\n\n.card {\n  background: var(--card);\n  border-radius: var(--radius);\n  box-shadow: var(--shadow);\n  max-width: 560px;\n  width: 100%;\n  padding: 2.5rem 2.5rem 2rem;\n}\n\n.badge {\n  display: inline-block;\n  background: var(--accent-light);\n  color: var(--accent);\n  font-size: 0.72rem;\n  font-weight: 700;\n  letter-spacing: 0.1em;\n  text-transform: uppercase;\n  padding: 0.25em 0.75em;\n  border-radius: 999px;\n  margin-bottom: 1.25rem;\n}\n\nh1 {\n  font-size: clamp(1.5rem, 5vw, 2rem);\n  font-weight: 800;\n  line-height: 1.2;\n  letter-spacing: -0.02em;\n  color: var(--ink);\n  margin-bottom: 0.5rem;\n}\n\n.author {\n  font-size: 1rem;\n  color: var(--muted);\n  font-weight: 500;\n  margin-bottom: 1.5rem;\n}\n\n.divider {\n  width: 3rem;\n  height: 3px;\n  background: var(--accent);\n  border-radius: 2px;\n  margin-bottom: 1.5rem;\n}\n\n.description {\n  font-size: 0.975rem;\n  line-height: 1.7;\n  color: #44403c;\n  margin-bottom: 2rem;\n}\n\n.downloads {\n  display: flex;\n  flex-direction: column;\n  gap: 0.75rem;\n}\n\n.btn {\n  display: flex;\n  align-items: center;\n  justify-content: center;\n  gap: 0.5rem;\n  padding: 0.875rem 1.5rem;\n  border-radius: 8px;\n  font-size: 0.95rem;\n  font-weight: 600;\n  text-decoration: none;\n  transition: opacity 0.15s ease, transform 0.1s ease;\n  cursor: pointer;\n}\n\n.btn:hover { opacity: 0.88; transform: translateY(-1px); }\n.btn:active { transform: translateY(0); }\n\n.btn-primary {\n  background: var(--btn-primary);\n  color: var(--btn-primary-text);\n}\n\n.btn-secondary {\n  background: var(--btn-secondary);\n  color: var(--btn-secondary-text);\n}\n\n.btn-icon { font-size: 1.1em; }\n\nfooter {\n  margin-top: 2rem;\n  max-width: 560px;\n  width: 100%;\n  text-align: center;\n  color: var(--muted);\n  font-size: 0.825rem;\n  line-height: 1.8;\n}\n\nfooter a { color: var(--accent); text-decoration: none; }\nfooter a:hover { text-decoration: underline; }\n\n@media (min-width: 600px) {\n  .downloads { flex-direction: row; }\n  .btn { flex: 1; }\n}\n"

pub data Hole : Type 0 where
  og_title_hole og_description_hole og_url_hole og_image_hole page_title_hole title_hole author_hole
        description_hole translated_url_hole source_url_hole source_lang_hole target_lang_hole
        page_count_hole translation_date_hole :
      Hole

pub data Piece : Type 0 where
  literal : Text → Piece
  value : Hole → Piece

-- `_LANDING_HTML`
abbrev pub landing_template : List Piece
landing_template =
    literal (
      codes
        "<!DOCTYPE html>\n<html lang=\"en\">\n<head>\n  <meta charset=\"utf-8\">\n  <meta name=\"viewport\" content=\"width=device-width, initial-scale=1\">\n\n  <!-- Open Graph -->\n  <meta property=\"og:type\" content=\"book\" />\n  <meta property=\"og:site_name\" content=\"Transpose\" />\n  <meta property=\"og:title\" content=\"")
    ∷ value og_title_hole
    ∷ literal (codes "\" />\n  <meta property=\"og:description\" content=\"")
    ∷ value og_description_hole
    ∷ literal (codes "\" />\n  <meta property=\"og:url\" content=\"")
    ∷ value og_url_hole
    ∷ literal (codes "\" />\n  <meta property=\"og:image\" content=\"")
    ∷ value og_image_hole
    ∷ literal (
        codes
          "\" />\n\n  <!-- Twitter Card -->\n  <meta name=\"twitter:card\" content=\"summary_large_image\" />\n  <meta name=\"twitter:title\" content=\"")
    ∷ value og_title_hole
    ∷ literal (codes "\" />\n  <meta name=\"twitter:description\" content=\"")
    ∷ value og_description_hole
    ∷ literal (codes "\" />\n  <meta name=\"twitter:image\" content=\"")
    ∷ value og_image_hole
    ∷ literal (codes "\" />\n\n  <title>")
    ∷ value page_title_hole
    ∷ literal (codes "</title>\n  <style>")
    ∷ literal landing_css
    ∷ literal (
        codes
          "</style>\n</head>\n<body>\n  <p class=\"brand\">Transpose</p>\n\n  <div class=\"card\">\n    <span class=\"badge\">Translated Book</span>\n    <h1>")
    ∷ value title_hole
    ∷ literal (codes "</h1>\n    <p class=\"author\">")
    ∷ value author_hole
    ∷ literal (
        codes
          "</p>\n    <div class=\"divider\" role=\"presentation\"></div>\n    <p class=\"description\">")
    ∷ value description_hole
    ∷ literal
        (codes "</p>\n\n    <div class=\"downloads\">\n      <a class=\"btn btn-primary\" href=\"")
    ∷ value translated_url_hole
    ∷ literal (
        codes
          "\" rel=\"noopener\">\n        <span class=\"btn-icon\">&#8595;</span> Download Translation\n      </a>\n      <a class=\"btn btn-secondary\" href=\"")
    ∷ value source_url_hole
    ∷ literal (
        codes
          "\" rel=\"noopener\">\n        <span class=\"btn-icon\">&#8595;</span> Original Scan\n      </a>\n    </div>\n  </div>\n\n  <footer>\n    <p>")
    ∷ value source_lang_hole
    ∷ literal (codes "&nbsp;&rarr;&nbsp;")
    ∷ value target_lang_hole
    ∷ literal (codes "&nbsp;&middot;&nbsp;")
    ∷ value page_count_hole
    ∷ literal (codes "&nbsp;pages&nbsp;&middot;&nbsp;")
    ∷ value translation_date_hole
    ∷ literal (
        codes
          "</p>\n    <p>Translated by <a href=\"https://github.com/marora/transpose\">Transpose</a></p>\n  </footer>\n</body>\n</html>")
    ∷ []

-- `str.format`
unfoldable pub format : (Hole → Text) → List Piece → Text
format values [] = []
format values (literal t ∷ pieces) = t ++ format values pieces
format values (value h ∷ pieces) = values h ++ format values pieces

-- Whether the value goes through `esc`.
unfoldable pub is_escaped : Hole → Bool
is_escaped og_title_hole = true
is_escaped og_description_hole = true
is_escaped og_url_hole = true
is_escaped og_image_hole = true
is_escaped page_title_hole = true
is_escaped title_hole = true
is_escaped author_hole = true
is_escaped description_hole = true
is_escaped translated_url_hole = true
is_escaped source_url_hole = true
is_escaped source_lang_hole = true
is_escaped target_lang_hole = true
is_escaped page_count_hole = false
is_escaped translation_date_hole = true

module _ (py : Python) (env_image : Text) where
  abbrev pub get_str : String → Text → Fields → Text
  get_str key default metadata = str py (get_default key (text default) metadata)

  abbrev pub number_of_pages : Fields → Text
  number_of_pages metadata = str py (get_default "page_count" (plain (codes "0")) metadata)

  abbrev pub synthesized : Fields → Text
  synthesized metadata =
      get_str "title" (codes "Untitled") metadata
      ++ (codes " by "
          ++ (get_str "author" (codes "Unknown Author") metadata
              ++ (codes ", translated from "
                  ++ (get_str "source_language" [] metadata
                      ++ (codes " to "
                          ++ (get_str "target_language" (codes "English") metadata
                              ++ (codes " by Transpose ("
                                  ++ (number_of_pages metadata ++ codes " pages)."))))))))

  unfoldable pub description_of : Fields → Json
  unfolding get_default str truthy
  description_of metadata =
      or_value py (or_value py (get_default "translator_note" (text []) metadata) (text []))
        (text (synthesized metadata))

  -- `generated_at_raw[:10] if generated_at_raw else "—"`
  unfoldable pub translation_date : Fields → Fields → Option Json
  unfolding get_default truthy
  translation_date metadata share =
      let raw =
        or_value py (get_default "generated_at" (plain (codes "null")) share)
          (get_default "updated_at" (text []) metadata) in
      let date = first_chars py 10 raw in if truthy py raw then date else some (text (codes "—"))

  abbrev pub link : String → Text → Fields → Text
  link key default fields =
      str py (or_value py (get_default key (plain (codes "null")) fields) (text default))

  -- The value of a hole as it is.
  unfoldable pub raw_value : Fields → Fields → Json → Json → Hole → Text
  unfolding get_default str truthy description_of
  raw_value metadata share date og_description hole = elim hole [
    | og_title_hole ↦
        (get_str "title" (codes "Untitled") metadata
          ++ (codes " — " ++ get_str "author" (codes "Unknown Author") metadata))
    | og_description_hole ↦ (str py og_description)
    | og_url_hole ↦ (get_str "landing_page_url" [] metadata)
    | og_image_hole ↦ link "cover_image_blob_url" env_image metadata
    | page_title_hole ↦
        (get_str "title" (codes "Untitled") metadata
          ++ (codes " — " ++ get_str "author" (codes "Unknown Author") metadata))
    | title_hole ↦ (get_str "title" (codes "Untitled") metadata)
    | author_hole ↦ (get_str "author" (codes "Unknown Author") metadata)
    | description_hole ↦ (str py (description_of metadata))
    | translated_url_hole ↦ link "translated_pdf_sas_url" (codes "#") share
    | source_url_hole ↦ link "source_pdf_sas_url" (codes "#") share
    | source_lang_hole ↦ (get_str "source_language" [] metadata)
    | target_lang_hole ↦ (get_str "target_language" (codes "English") metadata)
    | page_count_hole ↦ number_of_pages metadata
    | translation_date_hole ↦ (str py date)
  ]

  unfoldable pub values : Fields → Fields → Json → Json → Hole → Text
  unfolding raw_value is_escaped escape
  values metadata share date og_description hole =
      let s = raw_value metadata share date og_description hole in
      if is_escaped hole then escape s else s

  abbrev pub page_from : Fields → Fields → Option Json → Option Json → Option Text
  page_from metadata share none og_description = none
  page_from metadata share (some date) none = none
  page_from metadata share (some date) (some og_description) =
      some (format (values metadata share date og_description) landing_template)

  abbrev pub with_share : Fields → Option Fields → Option Text
  with_share metadata none = none
  with_share metadata (some share) =
      page_from metadata share (translation_date metadata share)
        (first_chars py 200 (description_of metadata))

  -- `generate_landing_html`; `none` is an exception.
  unfoldable pub generate_landing_html : Fields → Option Text
  unfolding format values translation_date description_of share_of get_default
  generate_landing_html metadata =
      with_share metadata (share_of py (get_default "share" (object empty) metadata))
