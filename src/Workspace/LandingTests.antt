-- ===== src/Workspace/LandingTests.antt =====
-- A page of src/transpose/pipeline/workspace.py.
use transpose.Prelude.{Option, true, ◌≡◌, refl, ap, not, none, some, [], list_eq}
use transpose.Text.{Text, codes}
use transpose.Assemble.Render.{replace_char}
use transpose.Workspace.{Json, Fields, empty, entry, text, plain, object}
use transpose.Workspace.Landing.{
  Python, escape, landing_template, str, truthy, description_of, translation_date,
  generate_landing_html,
}
use transpose.Exec.{ok}
use transpose.Workspace.Publish.{Replies, Space, WorkspaceBook, WorkspaceInput, run_workspace_stage}
use transpose.Workspace.Shared.{url}
use transpose.Workspace.Page.{run_workspace_stage-markup}
use transpose.Workspace.Markup.{markup, template_markup}

abbrev printed : Json → Text
printed (text t) = t
printed (plain t) = t
printed (object f) = codes "{}"

abbrev python : Python
python = record {
  str = printed;
  is_truthy = λ t. not (list_eq t (codes "0"));
  first_items = λ n v. none;
}

abbrev share : Fields
share = entry "generated_at" (text (codes "2026-05-20T22:52:32Z")) empty

abbrev hostile : Fields
hostile = entry "title" (text (codes "<script>\"a'&")) (
    entry "page_count" (plain (codes "12"))
      (entry "translator_note" (plain (codes "null")) (entry "share" (object share) empty)))

escaped : escape (codes "<i>\"a'&") ≡ codes "&lt;i&gt;&quot;a&#x27;&amp;"
unfolding escape replace_char
escaped = refl

dated : translation_date python [] hostile share ≡ some (text (codes "2026-05-20"))
unfolding translation_date truthy list_eq
dated = refl

described :
    description_of python [] hostile
    ≡ text (
        codes
          "<script>\"a'& by Unknown Author, translated from  to English by Transpose (12 pages).")
unfolding description_of str
described = refl

abbrev page_or_nothing : Option Text → Text
page_or_nothing none = []
page_or_nothing (some page) = page

abbrev generating : Replies
generating = record {
  nfkd = λ t. t;
  title_case = λ t. codes "Hindi";
  landing_html = λ metadata. page_or_nothing (generate_landing_html python [] metadata);
  read_artifact = λ uri. none;
  source_uploads = true;
  translated_uploads = true;
  metadata_uploads = true;
  source_sas = none;
  translated_sas = some (codes "https://t");
  page_uploads = true;
  copy_uploads = true;
  metadata_downloads = true;
  update_uploads = true;
  published_site_url = codes "https://books/";
  static_website_url = [];
  page_uri = [];
  env_note = [];
  created = codes "c";
  now_utc = codes "n";
  sas_expiry = codes "e";
  updated = codes "u";
}

abbrev hostile_book : WorkspaceBook
hostile_book = record {
  title = codes "\"><script>";
  author = none;
  source_language = codes "hindi";
  page_count = 300;
  source_blob_uri = none;
}

abbrev no_options : WorkspaceInput
no_options = record {
  ingest_output = none;
  export_output = [];
  source_url = none;
  source_edition = none;
  translator_note = none;
  settings_note = codes "<b>";
}

abbrev nothing_there : Space
nothing_there = record {
  source = none;
  translated = none;
  metadata = none;
  landing_page = none;
  landing_copy = none;
}

run_workspace_stage-markup_example :
    (s' : Space) × (page : Text) × (run_workspace_stage generating
        (some (codes "0a"))
        (some hostile_book)
        no_options
        nothing_there
      ≡ (ok (url generating no_options hostile_book (codes "0a")), s'))
    × (s'.landing_page ≡ some page)
    × (s'.landing_copy ≡ some page)
    × (markup page ≡ template_markup landing_template)
run_workspace_stage-markup_example =
    run_workspace_stage-markup python [] generating no_options hostile_book b'0' (codes "a")
      nothing_there
      (record {
        metadata_uploads = refl;
        page_uploads = refl;
        copy_uploads = refl;
        metadata_downloads = refl;
        update_uploads = refl;
      })
      (λ metadata page e. ap page_or_nothing e) refl
