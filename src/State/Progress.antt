-- ===== src/State/Progress.antt =====
-- What the progress rows of src/transpose/services/cache.py tell a reader.
use transpose.Prelude.{ℕ, String, ◌≡◌, some, arith, eq_iff, eq_refl, str_eq, if◌then◌else◌}
use transpose.State.{StateRow, Tables, set_pipeline_status, get_pipeline_status, set_progress}

-- A status that is set is read back for its book, and no other book's status changes, neither then nor by
-- progress that is set.
pub get-set_pipeline_status :
    (now later : ℕ) (db : Tables) (b j : String) (stage other : String) (completed total : ℕ)
    → get_pipeline_status
        (set_progress later (set_pipeline_status now db b stage) b other completed total)
        j
      ≡ (if str_eq b j then some stage else get_pipeline_status db j)
unfolding get_pipeline_status set_pipeline_status set_progress
get-set_pipeline_status now later db b j stage other completed total =
    ground (arith, eq_iff b j, eq_refl b)

-- The next stage's status keeps the progress that the last stage reported.
pub progress_outlives_stage :
    (t₁ t₂ : ℕ) (db : Tables) (b stage next : String) (r : StateRow) (completed total : ℕ)
    → db.pipeline_state b ≡ some r
    → (set_pipeline_status t₂ (set_progress t₁ db b stage completed total) b next).pipeline_state b
      ≡ some (record {
        stage = next;
        status = "running";
        progress_completed = some completed;
        progress_total = some total;
        updated_at = t₂;
      })
unfolding set_pipeline_status set_progress
progress_outlives_stage t₁ t₂ db b stage next r completed total found = ground (arith, eq_refl b)
