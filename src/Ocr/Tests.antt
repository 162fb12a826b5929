-- ===== src/Ocr/Tests.antt =====
-- A book of two digital pages, the second of which is blank.
use transpose.Prelude.{◌≡◌, ◌++◌, refl, true, false, some, none, List, [], ◌∷◌}
use transpose.Text.{codes}
use transpose.Exec.{ok, raised, ◌>>=◌}
use transpose.Exec.Triple.{Ends}
use transpose.State.{StateRow, Tables, set_progress}
use transpose.Ocr.{
  OcrPage, digital_pages, check_page, new_pages, unique_violation, OcrReplies, OcrStore, unique,
  create_pages, delete_forced, save_pages, run,
}
use transpose.Ocr.Pages.{Covered, Unfinished, run_extracts}

abbrev source : List OcrPage
source = digital_pages (λ t. t) 1 (codes "ten letters" ∷ codes "" ∷ [])

abbrev in_progress : StateRow
in_progress = record {
  stage = "ocr";
  status = "running";
  progress_completed = none;
  progress_total = none;
  updated_at = 1;
}

abbrev tables : Tables
tables = record { pipeline_locks = λ _. none; pipeline_state = λ _. some in_progress }

abbrev replies : OcrReplies
replies = record {
  book = ok (some 2);
  reads = ok tt;
  deletes = ok tt;
  has_cover = true;
  source = ok source;
  inserts = ok tt;
  updates = ok tt;
  progresses = ok tt;
}

abbrev no_pages : OcrStore
no_pages = record { pages = []; ocr_complete = false; tables = tables }

-- A source that names a page twice: no row is written.
page_twice :
    run (record replies { source = ok (source ++ source) }) false false 2 "b" no_pages
    ≡ (raised unique_violation, no_pages)
unfolding run save_pages create_pages new_pages delete_forced unique ◌>>=◌ digital_pages check_page
page_twice = refl

-- The cover replaces the progress of the two pages by 1 of 1.
covered_progress :
    (run replies true false 2 "b" no_pages).1.tables.pipeline_state "b"
    ≡ some (record in_progress {
      progress_completed = some 1;
      progress_total = some 1;
      updated_at = 2;
    })
unfolding run save_pages create_pages new_pages delete_forced unique ◌>>=◌ set_progress
    digital_pages
covered_progress = refl

run_extracts_example :
    Ends
      (λ out to. Covered replies true false no_pages out.page_results to.pages)
      (λ e. Unfinished replies true false no_pages)
      (run replies true false 2 "b" no_pages)
run_extracts_example = run_extracts replies true false 2 "b" no_pages
