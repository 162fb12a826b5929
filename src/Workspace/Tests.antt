-- ===== src/Workspace/Tests.antt =====
-- A workspace that is created and shared.
use transpose.Prelude.{◌↔◌, arith, ◌≡◌, refl, true, false, none, some, List, [], ◌∷◌, if◌then◌else◌}
use transpose.Text.{codes}
use transpose.Exec.{ok}
use transpose.Workspace.Slug.{make_slug}
use transpose.Workspace.Kebab.{IsSlug, make_slug-IsSlug}
use transpose.Workspace.Build.{build_metadata, validate_metadata}
use transpose.Workspace.Publish.{
  WorkspaceBook, WorkspaceInput, Replies, Space, build_input, run_workspace_stage,
}
use transpose.Workspace.Shared.{IsShared, url, run_workspace_stage-IsShared}
use transpose.Workspace.Validated.{IsFilled, validate_metadata-build_metadata_iff}
use transpose.Workspace.{
  text, object, Fields, empty, entry, get, MetadataCall, write, update, update_metadata,
  metadata_call,
}
use transpose.Workspace.License.{
  Unclaimed, after_calls, after_calls-Unclaimed, update_metadata-license,
}

abbrev created : Fields
created =
    entry "title" (text (codes "Katha"))
      (entry "license" (object (entry "status" (text (codes "rights-unknown")) empty)) empty)

abbrev shared : Fields
shared = entry "share" (object (entry "url" (text (codes "https://share")) empty)) empty

abbrev claimed : Fields
claimed = entry "license" (object (entry "status" (text (codes "public-domain")) empty)) empty

abbrev publishing : List MetadataCall
publishing =
    write true claimed
    ∷ write true created
    ∷ update true true (codes "now") shared
    ∷ update true true (codes "now") claimed
    ∷ []

after_calls-Unclaimed_example : Unclaimed (after_calls publishing none)
after_calls-Unclaimed_example = after_calls-Unclaimed publishing none tt

update_metadata-license_example :
    (g : Fields) × (update_metadata false true (codes "now") shared (some created)
      ≡ (ok tt, some g))
    × (get "license" g ≡ (if false then get "license" created else none))
unfolding get
update_metadata-license_example = update_metadata-license false (codes "now") shared created refl

-- The two calls that claim a license are refused.
published :
    after_calls publishing none
    ≡ some (
        entry "title" (text (codes "Katha")) (
          entry "license" (object (entry "status" (text (codes "rights-unknown")) empty)) (
            entry "share"
              (object (entry "url" (text (codes "https://share")) empty))
              (entry "updated_at" (text (codes "now")) empty))))
unfolding metadata_call
published = refl

abbrev novel : WorkspaceBook
novel = record {
  title = codes "Godaan, Vol. 1";
  author = some (codes "Premchand");
  source_language = codes "hindi";
  page_count = 300;
  source_blob_uri = none;
}

abbrev stage_input : WorkspaceInput
stage_input = record {
  ingest_output = none;
  export_output = ("epub", none) ∷ ("pdf", some (codes "pdf")) ∷ [];
  source_url = none;
  source_edition = none;
  translator_note = none;
  settings_note = [];
}

-- The links of the source cannot be generated.
abbrev replies : Replies
replies = record {
  nfkd = λ t. t;
  title_case = λ t. codes "Hindi";
  landing_html = λ f. codes "<html>";
  read_artifact = λ uri. none;
  source_uploads = false;
  translated_uploads = true;
  metadata_uploads = true;
  source_sas = none;
  translated_sas = some (codes "https://t");
  page_uploads = true;
  copy_uploads = true;
  metadata_downloads = true;
  update_uploads = true;
  published_site_url = codes "https://books/";
  static_website_url = [];
  page_uri = [];
  env_note = [];
  created = codes "c";
  now_utc = codes "n";
  sas_expiry = codes "e";
  updated = codes "u";
}

abbrev empty_space : Space
empty_space = record {
  source = none;
  translated = none;
  metadata = none;
  landing_page = none;
  landing_copy = none;
}

slugged : make_slug (λ t. t) (codes "Godaan, Vol. 1") 40 ≡ codes "godaan-vol-1"
unfolding make_slug
slugged = refl

make_slug-IsSlug_example : IsSlug 8 (make_slug (λ t. t) (codes "The Tale") 8)
make_slug-IsSlug_example = make_slug-IsSlug (λ t. t) (codes "The Tale") 8 (omega arith)

validate_metadata-build_metadata_iff_example :
    (validate_metadata
        (build_metadata (codes "c") [] (build_input replies stage_input novel (codes "0a-1b")))
      ≡ some [])
    ↔ IsFilled (build_input replies stage_input novel (codes "0a-1b"))
validate_metadata-build_metadata_iff_example =
    validate_metadata-build_metadata_iff (codes "c") []
      (build_input replies stage_input novel (codes "0a-1b"))

run_workspace_stage-IsShared_example :
    (s' : Space) × (run_workspace_stage replies
        (some (codes "0a-1b"))
        (some novel)
        stage_input
        empty_space
      ≡ (ok (url replies stage_input novel (codes "0a-1b")), s'))
    × IsShared replies stage_input novel (codes "0a-1b") s'
run_workspace_stage-IsShared_example =
    run_workspace_stage-IsShared replies stage_input novel b'0' (codes "a-1b") empty_space (record {
      metadata_uploads = refl;
      page_uploads = refl;
      copy_uploads = refl;
      metadata_downloads = refl;
      update_uploads = refl;
    })
