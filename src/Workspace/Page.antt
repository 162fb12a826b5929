-- ===== src/Workspace/Page.antt =====
-- The page that a run of the workspace stage, `_run_workspace_stage` of src/transpose/pipeline/runner.py, publishes.
use transpose.Prelude.{
  ℕ, zero, suc, ◌+◌, ◌/◌, ◌%◌, ◌<◌, ◌≡◌, refl, ap, ◌∙◌, some, [], ◌∷◌, ltb, select, arith, inl, inr,
  Bool-cases,
}
use transpose.Text.{Text}
use transpose.Exec.{ok}
use transpose.Transcript.Stamps.{decimal_from, decimal}
use transpose.Workspace.{plain, Fields, get, set}
use transpose.Workspace.Build.{build_metadata}
use transpose.Workspace.Publish.{
  Space, WorkspaceBook, WorkspaceInput, Replies, share_fields, page_metadata, run_workspace_stage,
}
use transpose.Workspace.Shared.{url, built, Works, run_workspace_stage-IsShared}
use transpose.Workspace.Validated.{decimal-no_null}
use transpose.Workspace.Landing.{
  Python, str, get_default, number_of_pages, landing_template, generate_landing_html,
}
use transpose.Workspace.Markup.{
  is_markup, markup, select-append, template_markup, generate_landing_html-markup,
}

markup-digit : (d : ℕ) → d < 10 → markup ((48 + d) ∷ []) ≡ []
unfolding select is_markup
markup-digit d h = ground (arith, h)

markup-decimal_from : (k n : ℕ) → markup (decimal_from k n) ≡ []
unfolding decimal_from
markup-decimal_from zero n = unfold select in refl
markup-decimal_from (suc k) n = elim (Bool-cases (ltb n 10)) [
  | inl e ↦ rw e (markup-digit n (ground arith))
  | inr e ↦ rw e (
      select-append is_markup (decimal_from k (n / 10)) ((48 + n % 10) ∷ [])
      ∙ rw (markup-decimal_from k (n / 10)) (markup-digit (n % 10) (omega arith)))
]

module _ (py : Python) (env_image : Text) (replies : Replies) (input : WorkspaceInput)
    (book : WorkspaceBook) (book_id : Text) where
  abbrev page_fields : Fields
  page_fields =
      page_metadata replies (url replies input book book_id) (built replies input book book_id)

  markup-number_of_pages :
      py.str (plain (decimal book.page_count)) ≡ decimal book.page_count
      → markup (number_of_pages py env_image page_fields) ≡ []
  unfolding get_default get set build_metadata str
  markup-number_of_pages h =
      rw (decimal-no_null book.page_count, h)
        (unfold decimal in markup-decimal_from (suc book.page_count) book.page_count)

-- If each upload and the download of metadata.json succeed, the page is what `generate_landing_html` makes where it makes
-- one, and Python prints the number of pages as JSON writes it, then a run for a book that is there publishes a page, and
-- the same as its copy, whose signs of markup are those of the template, in order, whatever the book's title and author,
-- the languages, the note and the links are.
pub run_workspace_stage-markup :
    (py : Python) (env_image : Text) (replies : Replies) (input : WorkspaceInput)
    (book : WorkspaceBook) (c : ℕ) (book_id : Text) (s : Space)
    → Works replies
    → ((metadata : Fields) (page : Text)
        → generate_landing_html py env_image metadata ≡ some page
        → replies.landing_html metadata ≡ page)
    → py.str (plain (decimal book.page_count)) ≡ decimal book.page_count
    → (s' : Space) × (page : Text) × (run_workspace_stage replies
          (some (c ∷ book_id))
          (some book)
          input
          s
        ≡ (ok (url replies input book (c ∷ book_id)), s'))
      × (s'.landing_page ≡ some page)
      × (s'.landing_copy ≡ some page)
      × (markup page ≡ template_markup landing_template)
run_workspace_stage-markup py env_image replies input book c book_id s works generated printed =
    let (s', r, shared) = run_workspace_stage-IsShared replies input book c book_id s works in
    let fields : Fields = page_fields py env_image replies input book (c ∷ book_id) in
    let (page, made, same) =
      generate_landing_html-markup py env_image fields (share_fields replies)
        (unfold get set build_metadata in refl) (unfold get set build_metadata in tt)
        (unfold get in tt) (unfold get set build_metadata in tt)
        (markup-number_of_pages py env_image replies input book (c ∷ book_id) printed) in
    let published = shared.page ∙ ap (λ p. some p) (generated fields page made) in
    (s', page, r, published, shared.copy ∙ published, same)
