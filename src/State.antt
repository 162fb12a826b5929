-- ===== src/State.antt =====
-- src/transpose/services/cache.py: `PipelineState`, the pipeline's progress rows and the
-- distributed locks with a time to live, kept in two PostgreSQL tables. A table with the primary
-- key `book_id` is a function from the key to its row. `now()` and `uuid4()` are arguments.
pub mod Locks
pub mod Progress
mod Tests
use transpose.Prelude.{
  ℕ, ◌+◌, String, Bool, true, false, Option, none, some, ltb, str_eq, if◌then◌else◌,
}

abbrev pub Table : Type 0 → Type 0
Table V = String → Option V

abbrev pub put_row : {V : Type 0} → Table V → String → Option V → Table V
put_row t k v j = if str_eq k j then v else t j

pub record LockRow : Type 0 where
  pub locked_at : ℕ
  pub expires_at : ℕ
  pub holder_id : String

pub record StateRow : Type 0 where
  pub stage : String
  pub status : String
  pub progress_completed : Option ℕ
  pub progress_total : Option ℕ
  pub updated_at : ℕ

pub record Tables : Type 0 where
  pub pipeline_locks : Table LockRow
  pub pipeline_state : Table StateRow

-- The object's one mutable field, `_holder_id`.
pub record PipelineState : Type 0 where
  pub holder_id : Option String

-- `__init__`
unfoldable pub new : PipelineState
new = record { holder_id = none }

-- `if self._holder_id is None: self._holder_id = str(uuid.uuid4())`
unfoldable pub holder_or : PipelineState → String → String
holder_or p fresh = elim p.holder_id [ none ↦ fresh | some h ↦ h ]

-- The row that `INSERT … ON CONFLICT … WHERE expires_at < now() RETURNING` writes, if it writes one.
unfoldable pub reclaims : Option LockRow → ℕ → Bool
reclaims none now = true
reclaims (some r) now = ltb r.expires_at now

unfoldable pub acquire_lock :
    ℕ → String → PipelineState → Tables → String → ℕ → PipelineState × Tables × Bool
unfolding holder_or reclaims
acquire_lock now fresh p db book_id ttl =
    let h = holder_or p fresh in
    let row : LockRow = record { locked_at = now; expires_at = now + ttl; holder_id = h } in
    let p' : PipelineState = record { holder_id = some h } in
    if reclaims (db.pipeline_locks book_id) now
    then (p', record db { pipeline_locks = put_row db.pipeline_locks book_id (some row) }, true)
    else (p', db, false)

unfoldable pub release_lock : Tables → String → Tables
release_lock db book_id = record db { pipeline_locks = put_row db.pipeline_locks book_id none }

-- `UPDATE … WHERE book_id = $1 AND holder_id = $3 RETURNING book_id`
unfoldable pub refresh_row : ℕ → ℕ → String → Option LockRow → Option LockRow × Bool
refresh_row now ttl h none = (none, false)
refresh_row now ttl h (some r) =
    if str_eq r.holder_id h
    then (some (record r { locked_at = now; expires_at = now + ttl }), true)
    else (some r, false)

-- `if not self._holder_id: return False` is also taken for the empty text.
unfoldable pub refresh_lock : ℕ → PipelineState → Tables → String → ℕ → Tables × Bool
unfolding refresh_row
refresh_lock now p db book_id ttl = elim p.holder_id [
  | none ↦ (db, false)
  | some h ↦
      let (row, done) = refresh_row now ttl h (db.pipeline_locks book_id) in
      if str_eq h ""
      then (db, false)
      else if done
      then (record db { pipeline_locks = put_row db.pipeline_locks book_id row }, true)
      else (db, false)
]

-- The upsert keeps the progress columns of a row that is there; the columns of a new row are null.
unfoldable pub upsert_status : ℕ → String → Option StateRow → StateRow
upsert_status now stage none = record {
  stage = stage;
  status = "running";
  progress_completed = none;
  progress_total = none;
  updated_at = now;
}
upsert_status now stage (some r) = record r { stage = stage; status = "running"; updated_at = now }

unfoldable pub set_pipeline_status : ℕ → Tables → String → String → Tables
unfolding upsert_status
set_pipeline_status now db book_id stage = record db {
  pipeline_state =
      put_row db.pipeline_state book_id
        (some (upsert_status now stage (db.pipeline_state book_id)));
}

unfoldable pub get_pipeline_status : Tables → String → Option String
get_pipeline_status db book_id = elim (db.pipeline_state book_id) [
  | none ↦ none
  | some r ↦ some r.stage
]

-- `UPDATE pipeline_state … WHERE book_id = $1`; the argument `stage` is not used by the query.
unfoldable pub set_progress : ℕ → Tables → String → String → ℕ → ℕ → Tables
set_progress now db book_id stage completed total = elim (db.pipeline_state book_id) [
  | none ↦ db
  | some r ↦ record db {
    pipeline_state = put_row db.pipeline_state book_id (
        some (record r {
          progress_completed = some completed;
          progress_total = some total;
          updated_at = now;
        }));
  }
]
