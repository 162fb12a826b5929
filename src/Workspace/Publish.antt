-- ===== src/Workspace/Publish.antt =====
-- `_run_workspace_stage` of src/transpose/pipeline/runner.py, with the methods of `BookWorkspace` in
-- src/transpose/pipeline/workspace.py that it calls, on the blobs of one workspace. What the services reply is an
-- argument, and so is `generate_landing_html`, as any function of the metadata.
use transpose.Prelude.{
  ◌==◌, ℕ, String, Bool, true, false, Option, none, some, List, [], ◌∷◌, ◌++◌, str_eq,
  if◌then◌else◌,
}
use transpose.Text.{Text, codes, is_empty}
use transpose.Exec.{Outcome, ok, raised, Exec, pure, raise, ◌>>=◌}
use transpose.Workspace.{
  text, object, Fields, empty, entry, set, MetadataError, write_metadata, update_metadata,
}
use transpose.Workspace.Slug.{make_slug, make_blob_prefix}
use transpose.Workspace.Build.{BuildInput, build_metadata, or_text}

-- The blobs under the prefix of a book: the two PDFs, metadata.json, and the landing page with its copy.
pub record Space : Type 0 where
  pub source : Option Text
  pub translated : Option Text
  pub metadata : Option Fields
  pub landing_page : Option Text
  pub landing_copy : Option Text

-- What the stage reads of a row of the books.
pub record WorkspaceBook : Type 0 where
  pub title : Text
  pub author : Option Text
  pub source_language : Text
  pub page_count : ℕ
  pub source_blob_uri : Option Text

-- The arguments: of `ingest_output` the URI of its source, of `export_output` the format and the URI of each artifact.
pub record WorkspaceInput : Type 0 where
  pub ingest_output : Option (Option Text)
  pub export_output : List (String × Option Text)
  pub source_url : Option Text
  pub source_edition : Option Text
  pub translator_note : Option Text
  pub settings_note : Text

-- What the services, the environment and the clock reply. `none` and `false` are exceptions.
pub record Replies : Type 0 where
  pub nfkd : Text → Text
  pub title_case : Text → Text
  pub landing_html : Fields → Text
  pub read_artifact : Text → Option Text
  pub source_uploads : Bool
  pub translated_uploads : Bool
  pub metadata_uploads : Bool
  pub source_sas : Option Text
  pub translated_sas : Option Text
  pub page_uploads : Bool
  pub copy_uploads : Bool
  pub metadata_downloads : Bool
  pub update_uploads : Bool
  pub published_site_url : Text
  pub static_website_url : Text
  pub page_uri : Text
  pub env_note : Text
  pub created : Text
  pub now_utc : Text
  pub sas_expiry : Text
  pub updated : Text

pub data WorkspaceError : Type 0 where
  no_book_id : WorkspaceError
  book_missing : WorkspaceError
  metadata_error : MetadataError → WorkspaceError
  page_error : WorkspaceError

-- `s.rstrip("/")`
unfoldable pub rstrip_slashes : Text → Text
rstrip_slashes [] = []
rstrip_slashes (c ∷ s) = elim (rstrip_slashes s) [
  | [] ↦ if c == 47 then [] else c ∷ []
  | d ∷ r ↦ c ∷ d ∷ r
]

module _ (replies : Replies) where
  -- `landing_page_url`
  unfoldable pub landing_page_url : Text → Text
  unfolding rstrip_slashes
  landing_page_url blob_prefix =
      let published = rstrip_slashes replies.published_site_url in
      let static_site = rstrip_slashes replies.static_website_url in
      let behind = codes "/" ++ (blob_prefix ++ codes "/") in
      if is_empty published
      then (if is_empty static_site then replies.page_uri else static_site ++ behind)
      else published ++ behind

  -- The URI of the source, and of the first artifact that is a PDF.
  abbrev pub source_uri : WorkspaceInput → WorkspaceBook → Option Text
  source_uri input book = elim input.ingest_output [ none ↦ book.source_blob_uri | some uri ↦ uri ]

  unfoldable pub pdf_uri : List (String × Option Text) → Option Text
  pdf_uri [] = none
  pdf_uri ((format, uri) ∷ artifacts) =
      let rest = pdf_uri artifacts in if str_eq format "pdf" then uri else rest

  -- The bytes of an artifact, if there is one that can be read.
  abbrev pub artifact_bytes : Option Text → Option Text
  artifact_bytes none = none
  artifact_bytes (some uri) = if is_empty uri then none else replies.read_artifact uri

  abbrev pub uploaded : Bool → Option Text → Option Text → Option Text
  uploaded true (some bytes) blob = some bytes
  uploaded true none blob = blob
  uploaded false bytes blob = blob

  -- The two copies. An exception of either is only logged.
  unfoldable pub copy_source : WorkspaceInput → WorkspaceBook → Exec WorkspaceError Space (Unit {0})
  copy_source input book s = (
    ok tt,
    record s {
      source = uploaded replies.source_uploads (artifact_bytes (source_uri input book)) s.source;
    },
  )

  unfoldable pub copy_translated : WorkspaceInput → Exec WorkspaceError Space (Unit {0})
  unfolding pdf_uri
  copy_translated input s = (
    ok tt,
    record s {
      translated =
          uploaded replies.translated_uploads (artifact_bytes (pdf_uri input.export_output))
            s.translated;
    },
  )

  abbrev pub with_metadata :
      Space
      → Outcome MetadataError (Unit {0}) × Option Fields
      → Outcome WorkspaceError (Unit {0}) × Space
  with_metadata s (ok a, blob) = (ok a, record s { metadata = blob })
  with_metadata s (raised e, blob) = (raised (metadata_error e), record s { metadata = blob })

  -- A call on metadata.json.
  abbrev pub on_metadata :
      (Option Fields → Outcome MetadataError (Unit {0}) × Option Fields)
      → Exec WorkspaceError Space (Unit {0})
  on_metadata call s = with_metadata s (call s.metadata)

  abbrev pub build_input : WorkspaceInput → WorkspaceBook → Text → BuildInput
  build_input input book book_id = record {
    book_id = book_id;
    slug = make_slug replies.nfkd book.title 40;
    title = book.title;
    author = or_text book.author [];
    source_language = replies.title_case book.source_language;
    target_language = codes "English";
    page_count = book.page_count;
    source_url = input.source_url;
    source_edition = input.source_edition;
    source_acquired_at = none;
    source_notes = none;
    translator_note = some (or_text input.translator_note input.settings_note);
    cover_image_blob_url = none;
    pipeline_version = codes "1.0.0";
    created_at = none;
  }

  -- The `share` block: an URL that could not be generated is "".
  abbrev pub share_fields : Fields
  share_fields = entry "source_pdf_sas_url" (text (or_text replies.source_sas [])) (
      entry "translated_pdf_sas_url" (text (or_text replies.translated_sas [])) (
        entry "sas_expiry" (text replies.sas_expiry)
          (entry "generated_at" (text replies.now_utc) empty)))

  abbrev pub share_updates : Text → Fields
  share_updates url =
      entry "landing_page_url" (text url) (entry "share" (object share_fields) empty)

  -- The metadata that the page is made of.
  abbrev pub page_metadata : Text → Fields → Fields
  page_metadata url meta =
      set "share" (object share_fields) (set "landing_page_url" (text url) meta)

  -- `publish_landing_page`
  unfoldable pub publish_landing_page : Text → Exec WorkspaceError Space (Unit {0})
  publish_landing_page html s =
      if replies.page_uploads
      then (if replies.copy_uploads
          then (ok tt, record s { landing_page = some html; landing_copy = some html })
          else (raised page_error, record s { landing_page = some html }))
      else (raised page_error, s)

  -- Behind the look-up of the book.
  unfoldable pub publish_book :
      WorkspaceInput → Text → WorkspaceBook → Exec WorkspaceError Space Text
  unfolding make_slug make_blob_prefix landing_page_url copy_source copy_translated build_metadata
      write_metadata update_metadata publish_landing_page set
  publish_book input book_id book =
      let url =
        landing_page_url (make_blob_prefix (make_slug replies.nfkd book.title 40) book_id) in
      let meta = build_metadata replies.created replies.env_note (build_input input book book_id) in
      do
        _ ← copy_source input book
        _ ← copy_translated input
        _ ← on_metadata (write_metadata replies.metadata_uploads meta)
        _ ← publish_landing_page (replies.landing_html (page_metadata url meta))
        _ ← on_metadata (
            update_metadata replies.metadata_downloads replies.update_uploads replies.updated
              (share_updates url))
        pure url

  -- `_run_workspace_stage`, with the identifier and the book that is found for it.
  unfoldable pub run_workspace_stage :
      Option Text → Option WorkspaceBook → WorkspaceInput → Exec WorkspaceError Space Text
  unfolding publish_book
  run_workspace_stage none book input = raise no_book_id
  run_workspace_stage (some []) book input = raise no_book_id
  run_workspace_stage (some (c ∷ book_id)) none input = raise book_missing
  run_workspace_stage (some (c ∷ book_id)) (some book) input = publish_book input (c ∷ book_id) book
