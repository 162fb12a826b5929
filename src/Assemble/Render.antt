-- ===== src/Assemble/Render.antt =====
-- The loop over the chapters in `run` of src/transpose/pipeline/assemble.py. A chapter's HTML is the text of its blocks.
use transpose.Prelude.{
  ℕ, suc, ◌+◌, ◌-◌, Bool, false, not, ◌&&◌, ◌||◌, none, some, List, [], ◌∷◌, ◌++◌, map, flatten,
  range, ltb, ◌==◌, if◌then◌else◌, list_eq,
}
use transpose.Text.{Text, codes, strip, is_empty, contains}
use transpose.Chunk.Paragraphs.{paragraphs_of}
use transpose.Transcript.Stamps.{decimal}
use transpose.Assemble.{Unicode, PageRow, Item, TocEntry, Chapter}
use transpose.Assemble.Headings.{detect_heading, detect_chapter_boundary}
use transpose.Assemble.Titles.{strip_leading_chapter_title, extract_chapter_title}
use transpose.Assemble.Markers.{original_text_fallback_prefix, without_markers, is_untranslated}

-- `s.replace(c, new)`, of a character.
unfoldable pub replace_char : ℕ → Text → Text → Text
replace_char c new [] = []
replace_char c new (d ∷ s) =
    let rest = replace_char c new s in if d == c then new ++ rest else d ∷ rest

-- `escape_html` of src/transpose/utils/__init__.py
unfoldable pub escape_html : Text → Text
unfolding replace_char
escape_html text = replace_char 34 (codes "&quot;") (
    replace_char b'>' (codes "&gt;")
      (replace_char b'<' (codes "&lt;") (replace_char b'&' (codes "&amp;") text)))

pub data Block : Type 0 where
  figure : Text → Block
  heading : Text → Text → Block
  untranslated_note : Text → Block
  paragraph : Text → Block

unfoldable pub html_of : Block → Text
unfolding escape_html
html_of (figure img_key) =
    codes "<figure class='page-image'><img src='"
    ++ (escape_html img_key ++ codes "' alt='Illustration'/></figure>\n")
html_of (heading sub_id text) =
    codes "<h2 id='" ++ (sub_id ++ (codes "'>" ++ (escape_html text ++ codes "</h2>\n")))
html_of (untranslated_note text) =
    codes "<div class='untranslated-note'><p><em>"
    ++ (escape_html text ++ codes "</em></p></div>\n")
html_of (paragraph text) = codes "<p>" ++ (escape_html text ++ codes "</p>\n")

-- `page_images.get(n, [])`: the last page with the number that has images counts.
unfoldable pub images_of : ℕ → List Text → List PageRow → List Text
images_of n found [] = found
images_of n found (p ∷ ps) =
    images_of n (if p.page_number == n && not (is_empty p.images) then p.images else found) ps

-- `key in keys`
unfoldable pub has_key : Text → List Text → Bool
unfolding list_eq
has_key key [] = false
has_key key (k ∷ ks) = list_eq k key || has_key key ks

-- The local variables of the loop: the last three are reset for each chapter.
pub record Assembly : Type 0 where
  pub toc : List TocEntry
  pub untranslated_passages : ℕ
  pub emitted_image_keys : List Text
  pub blocks : List Block
  pub sub_heading_idx : ℕ
  pub seen_sub_headings : List Text

unfoldable pub emit : Text → Assembly → Assembly
unfolding has_key
emit img_key a = if is_empty img_key || has_key img_key a.emitted_image_keys then a else record a {
  emitted_image_keys = img_key ∷ a.emitted_image_keys;
  blocks = a.blocks ++ figure img_key ∷ [];
}

unfoldable pub emit_all : List Text → Assembly → Assembly
unfolding emit
emit_all [] a = a
emit_all (k ∷ ks) a = emit_all ks (emit k a)

-- The image references on the pages, in order.
abbrev pub images_on : List PageRow → List ℕ → List Text
images_on pages numbers = flatten (map (λ n. images_of n [] pages) numbers)

abbrev pub pages_of_item : Item → List ℕ
pages_of_item item = range item.chunk.page_start ((item.chunk.page_end + 1) - item.chunk.page_start)

unfoldable pub count_untranslated : Text → Assembly → Assembly
unfolding is_untranslated
count_untranslated translated_text a = record a {
  untranslated_passages =
      if is_untranslated translated_text
      then suc a.untranslated_passages
      else a.untranslated_passages;
}

abbrev pub chapter_id : ℕ → Text
chapter_id number = codes "chapter-" ++ decimal number

module _ (unicode : Unicode) (pages : List PageRow) where
  -- A sub-heading, with its entry if none of the chapter has the same words.
  unfoldable pub add_heading : ℕ → Text → Assembly → Assembly
  unfolding has_key decimal strip
  add_heading number text a =
      let sub_id = chapter_id number ++ (codes "-s" ++ decimal (suc a.sub_heading_idx)) in
      let heading_key = strip (unicode.lower text) in
      let is_seen = has_key heading_key a.seen_sub_headings in
      record a {
        toc =
            if is_seen
            then a.toc
            else a.toc ++ (record { chapter = number; title = text; anchor = some sub_id }) ∷ [];
        blocks = a.blocks ++ heading sub_id text ∷ [];
        sub_heading_idx = suc a.sub_heading_idx;
        seen_sub_headings =
            if is_seen then a.seen_sub_headings else heading_key ∷ a.seen_sub_headings;
      }

  -- One paragraph, stripped.
  unfoldable pub render_paragraph : ℕ → Text → Assembly → Assembly
  unfolding detect_heading detect_chapter_boundary add_heading contains
  render_paragraph number [] a = a
  render_paragraph number (c ∷ s) a =
      if detect_heading unicode (c ∷ s) && not (detect_chapter_boundary unicode (c ∷ s))
      then add_heading number (c ∷ s) a
      else if contains original_text_fallback_prefix (c ∷ s)
      then record a { blocks = a.blocks ++ untranslated_note (c ∷ s) ∷ [] }
      else record a { blocks = a.blocks ++ paragraph (c ∷ s) ∷ [] }

  unfoldable pub render_paragraphs : ℕ → List Text → Assembly → Assembly
  unfolding render_paragraph strip
  render_paragraphs number [] a = a
  render_paragraphs number (p ∷ ps) a =
      render_paragraphs number ps (render_paragraph number (strip p) a)

  -- What is shown of an item, with its place in the chapter.
  unfoldable pub shown : ℕ → Item → Text
  unfolding without_markers strip_leading_chapter_title
  shown item_idx item =
      let text = without_markers item.translation.translated_text in
      if ltb item_idx 3 then strip_leading_chapter_title unicode text else text

  -- One round of the loop over the items of a chapter.
  unfoldable pub add_item : ℕ → ℕ → Item → Assembly → Assembly
  unfolding emit_all images_of range count_untranslated shown paragraphs_of render_paragraphs
  add_item number item_idx item a =
      let b = emit_all (images_on pages (pages_of_item item)) a in
      let c = count_untranslated item.translation.translated_text b in
      render_paragraphs number (paragraphs_of (shown item_idx item)) c

  unfoldable pub add_items : ℕ → ℕ → List Item → Assembly → Assembly
  unfolding add_item
  add_items number item_idx [] a = a
  add_items number item_idx (item ∷ items) a =
      add_items number (suc item_idx) items (add_item number item_idx item a)

  -- One chapter: what it is, and the variables behind it.
  unfoldable pub add_chapter : ℕ → Text → List Item → Assembly → Chapter × Assembly
  unfolding extract_chapter_title escape_html html_of decimal add_items
  add_chapter number chapter_ref items a =
      let english_title = extract_chapter_title unicode items chapter_ref in
      let b =
        add_items number 0 items
          (record a { blocks = []; sub_heading_idx = 0; seen_sub_headings = [] }) in
      (
        record {
          number = number;
          title = english_title;
          content_html =
              codes "<div class='chapter'>\n<h1 id='"
              ++ (chapter_id number
                  ++ (codes "'>"
                      ++ (escape_html english_title
                          ++ (codes "</h1>\n"
                              ++ (flatten (map html_of b.blocks) ++ codes "</div>\n")))));
        },
        record b {
          toc = b.toc ++ (record { chapter = number; title = english_title; anchor = none }) ∷ [];
        },
      )

  -- The chapters from the given number on.
  unfoldable pub add_chapters : ℕ → List (Text × List Item) → Assembly → List Chapter × Assembly
  unfolding add_chapter
  add_chapters number [] a = ([], a)
  add_chapters number ((chapter_ref, items) ∷ rest) a =
      let (chapter, b) = add_chapter number chapter_ref items a in
      let (chapters, c) = add_chapters (suc number) rest b in (chapter ∷ chapters, c)

abbrev pub empty_assembly : Assembly
empty_assembly = record {
  toc = [];
  untranslated_passages = 0;
  emitted_image_keys = [];
  blocks = [];
  sub_heading_idx = 0;
  seen_sub_headings = [];
}
