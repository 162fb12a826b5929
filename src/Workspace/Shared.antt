-- ===== src/Workspace/Shared.antt =====
-- What a run of the workspace stage, `_run_workspace_stage` of src/transpose/pipeline/runner.py, leaves in the workspace.
use transpose.Prelude.{ℕ, ◌≡◌, refl, ap, ◌∙◌, true, some, ◌∷◌}
use transpose.Text.{Text}
use transpose.Exec.{ok, Exec, ◌>>=◌, resume}
use transpose.Workspace.{
  text, object, Fields, empty, entry, get, set, deep_merge, write_metadata, update_metadata,
  rights_unknown, is_rights_unknown,
}
use transpose.Workspace.License.{IsRightsUnknown}
use transpose.Workspace.Slug.{make_slug, make_blob_prefix}
use transpose.Workspace.Build.{null, build_metadata, validate_metadata}
use transpose.Workspace.Publish.{
  Space, WorkspaceBook, WorkspaceInput, Replies, landing_page_url, copy_source, copy_translated,
  on_metadata, build_input, share_fields, share_updates, page_metadata, publish_landing_page,
  publish_book, run_workspace_stage,
}

module _ (replies : Replies) (input : WorkspaceInput) (book : WorkspaceBook) (book_id : Text) where
  abbrev pub url : Text
  url = landing_page_url replies (make_blob_prefix (make_slug replies.nfkd book.title 40) book_id)

  abbrev pub built : Fields
  built = build_metadata replies.created replies.env_note (build_input replies input book book_id)

  -- The metadata that the stage ends with, if each call succeeds.
  abbrev shared : Fields
  shared = set "updated_at" (text replies.updated) (deep_merge built (share_updates replies url))

  built-license :
      get "license" built
      ≡ some (object (entry "status" (text rights_unknown) (entry "notes" null empty)))
  unfolding get build_metadata
  built-license = refl

  shared-license : get "license" shared ≡ get "license" built
  unfolding get set deep_merge build_metadata
  shared-license = refl

  shared-share : get "share" shared ≡ some (object (share_fields replies))
  unfolding get set deep_merge build_metadata
  shared-share = refl

  shared-url : get "landing_page_url" shared ≡ some (text url)
  unfolding get set deep_merge build_metadata
  shared-url = refl

  shared-valid : validate_metadata shared ≡ validate_metadata built
  unfolding get set deep_merge build_metadata validate_metadata
  shared-valid = refl

step :
    {E S A B : Type 0} (m : Exec E S A) (f : A → Exec E S B) (s : S) {a : A} {s' : S}
    → m s ≡ (ok a, s')
    → (m >>= f) s ≡ f a s'
unfolding ◌>>=◌
step m f s e = ap (λ r. resume r f) e

-- Each upload and the download of metadata.json succeed.
pub record Works (replies : Replies) : Type 0 where
  pub metadata_uploads : replies.metadata_uploads ≡ true
  pub page_uploads : replies.page_uploads ≡ true
  pub copy_uploads : replies.copy_uploads ≡ true
  pub metadata_downloads : replies.metadata_downloads ≡ true
  pub update_uploads : replies.update_uploads ≡ true

-- metadata.json has no claimed license, the address of the page and the links of the share block, and it is valid just as
-- when it was built; the page and its copy are made with that address and these links.
pub record IsShared (replies : Replies) (input : WorkspaceInput) (book : WorkspaceBook)
    (book_id : Text) (s : Space) : Type 0 where
  pub metadata : Fields
  pub stored : s.metadata ≡ some metadata
  pub rights : IsRightsUnknown metadata
  pub linked : get "landing_page_url" metadata ≡ some (text (url replies input book book_id))
  pub share : get "share" metadata ≡ some (object (share_fields replies))
  pub validated : validate_metadata metadata ≡ validate_metadata (built replies input book book_id)
  pub page :
      s.landing_page
      ≡ some (
          replies.landing_html (
            page_metadata replies
              (url replies input book book_id)
              (built replies input book book_id)))
  pub copy : s.landing_copy ≡ s.landing_page

module _ (replies : Replies) (works : Works replies) (input : WorkspaceInput) (book : WorkspaceBook)
    (book_id : Text) where
  abbrev html : Text
  html =
      replies.landing_html
        (page_metadata replies (url replies input book book_id) (built replies input book book_id))

  written :
      (s : Space)
      → on_metadata replies
          (write_metadata replies.metadata_uploads (built replies input book book_id))
          s
        ≡ (ok tt, record s { metadata = some (built replies input book book_id) })
  unfolding write_metadata build_metadata
  written s = rw works.metadata_uploads refl

  published :
      (s : Space)
      → publish_landing_page replies html s
        ≡ (ok tt, record s { landing_page = some html; landing_copy = some html })
  unfolding publish_landing_page
  published s = rw (works.page_uploads, works.copy_uploads) refl

  updated :
      (s : Space)
      → s.metadata ≡ some (built replies input book book_id)
      → on_metadata replies
          (update_metadata replies.metadata_downloads replies.update_uploads replies.updated
            (share_updates replies (url replies input book book_id)))
          s
        ≡ (ok tt, record s { metadata = some (shared replies input book book_id) })
  unfolding update_metadata get
  updated s h = rw (h, works.metadata_downloads, works.update_uploads) refl

  copied : Space → Space
  copied s = (copy_translated replies input (copy_source replies input book s).1).1

  -- Where the stage ends.
  shared_space : Space → Space
  shared_space s = record (copied s) {
    metadata = some (shared replies input book book_id);
    landing_page = some html;
    landing_copy = some html;
  }

  publish_book_lem :
      (s : Space)
      → publish_book replies input book_id book s
        ≡ (ok (url replies input book book_id), shared_space s)
  unfolding publish_book copied shared_space copy_source copy_translated
  publish_book_lem s =
      let s2 : Space = copied s in
      let s3 : Space = record s2 { metadata = some (built replies input book book_id) } in
      let s4 : Space = record s3 { landing_page = some html; landing_copy = some html } in
      step (copy_source replies input book) _ s refl
      ∙ (step (copy_translated replies input) _ (copy_source replies input book s).1 refl
          ∙ (step (on_metadata replies _) _ s2 (written s2)
              ∙ (step (publish_landing_page replies html) _ s3 (published s3)
                  ∙ step (on_metadata replies _) _ s4 (updated s4 refl))))

  IsShared-shared_space : (s : Space) → IsShared replies input book book_id (shared_space s)
  unfolding shared_space copied is_rights_unknown get
  IsShared-shared_space s = record {
    metadata = shared replies input book book_id;
    stored = refl;
    rights = (
      entry "status" (text rights_unknown) (entry "notes" null empty),
      shared-license replies input book book_id ∙ built-license replies input book book_id,
      refl,
    );
    linked = shared-url replies input book book_id;
    share = shared-share replies input book book_id;
    validated = shared-valid replies input book book_id;
    page = refl;
    copy = refl;
  }

-- If each upload and the download of metadata.json succeed, a run for a book that is there returns the address of its
-- page. Then metadata.json says rights-unknown, names the address and the links of the share block, and has the
-- violations that it was built with; and the page and its copy are made with this address and these links, whatever
-- becomes of the two PDFs.
pub run_workspace_stage-IsShared :
    (replies : Replies) (input : WorkspaceInput) (book : WorkspaceBook) (c : ℕ) (book_id : Text)
    (s : Space)
    → Works replies
    → (s' : Space) × (run_workspace_stage replies (some (c ∷ book_id)) (some book) input s
        ≡ (ok (url replies input book (c ∷ book_id)), s'))
      × IsShared replies input book (c ∷ book_id) s'
unfolding run_workspace_stage
run_workspace_stage-IsShared replies input book c book_id s works = (
  shared_space replies works input book (c ∷ book_id) s,
  publish_book_lem replies works input book (c ∷ book_id) s,
  IsShared-shared_space replies works input book (c ∷ book_id) s,
)
