-- ===== src/Gates/Readiness.antt =====
-- `operational_readiness_gate` of src/transpose/pipeline/gates.py, on the lock table of src/transpose/services/cache.py.
-- What it asks of the services, the environment and the file system is the record `Probes`; an exception is its text.
-- The telemetry check, which always passes, has no problem to report.
use transpose.Prelude.{
  ℕ, String, Bool, true, false, not, ◌&&◌, ◌||◌, Option, none, some, List, [], ◌∷◌, ◌++◌, length,
  any, select, member, ltb, str_eq, if◌then◌else◌,
}
use transpose.Text.{Text, codes, contains, strip, is_empty}
use transpose.Exec.{Outcome, ok, raised}
use transpose.State.{LockRow, Tables}

pub data Problem : Type 0 where
  no_rows : Problem
  missing_tables : List String → Problem
  database_error : String → Problem
  blob_error : String → Problem
  not_configured : Problem
  openai_error : String → Problem
  missing_env : List String → Problem
  no_font : Problem
  stale_locks : ℕ → Problem

pub record PreflightCheckResult : Type 0 where
  pub name : String
  pub passed : Bool

pub record OperationalReadinessResult : Type 0 where
  pub passed : Bool
  pub checks : List PreflightCheckResult
  pub failures : List Problem

-- The answers to the two database queries and of the blob store; `health_check`, which constructs the SDK client for the
-- model and contacts nothing, so it answers when the SDK lets the client be constructed; the environment, where a variable that is
-- not set is empty; the names of the files in the font folders and the output of `fc-list`, if it is there; and the
-- answers to the query for stale locks and to its `DELETE`.
pub record Probes : Type 0 where
  pub fetch_one : Outcome String Bool
  pub fetch_tables : Outcome String (List String)
  pub list_containers : Outcome String (Unit {0})
  pub openai_endpoint : String
  pub health_check : Outcome String (Unit {0})
  pub environ : String → String
  pub lower : Text → Text
  pub font_files : List Text
  pub fc_list : Option (Outcome String Text)
  pub select_locks : Outcome String (Unit {0})
  pub delete_locks : Outcome String (Unit {0})

abbrev pub required_tables : List String
required_tables =
    "books" ∷ "pages" ∷ "chunks" ∷ "translations" ∷ "manuscripts" ∷ "pipeline_state"
    ∷ "pipeline_locks" ∷ []

abbrev pub required_vars : List String
required_vars =
    "TRANSPOSE_OPENAI_ENDPOINT" ∷ "TRANSPOSE_DOC_INTELLIGENCE_ENDPOINT"
    ∷ "TRANSPOSE_BLOB_STORAGE_ACCOUNT_URL" ∷ "TRANSPOSE_POSTGRES_HOST" ∷ []

-- `if missing:`
abbrev pub some_missing : (List String → Problem) → List String → Option Problem
some_missing problem [] = none
some_missing problem (m ∷ ms) = some (problem (m ∷ ms))

unfoldable pub database_problem :
    Outcome String Bool → Outcome String (List String) → Option Problem
unfolding select
database_problem (raised e) tables = some (database_error e)
database_problem (ok false) tables = some no_rows
database_problem (ok true) (raised e) = some (database_error e)
database_problem (ok true) (ok found) =
    some_missing missing_tables (select (λ t. not (member t found)) required_tables)

unfoldable pub blob_problem : Outcome String (Unit {0}) → Option Problem
blob_problem (ok _) = none
blob_problem (raised e) = some (blob_error e)

unfoldable pub openai_problem : String → Outcome String (Unit {0}) → Option Problem
openai_problem endpoint (ok _) = if str_eq endpoint "" then some not_configured else none
openai_problem endpoint (raised e) =
    if str_eq endpoint "" then some not_configured else some (openai_error e)

unfoldable pub env_problem : (String → String) → Option Problem
unfolding select
env_problem environ = some_missing missing_env (select (λ v. str_eq (environ v) "") required_vars)

abbrev pub is_font : (Text → Text) → Text → Bool
is_font lower f = contains (codes "noto") (lower f) && contains (codes "devanagari") (lower f)

-- An error of `fc-list` is passed over.
abbrev pub lists_font : Option (Outcome String Text) → Bool
lists_font none = false
lists_font (some (raised e)) = false
lists_font (some (ok out)) = not (is_empty (strip out))

unfoldable pub font_found : Probes → Bool
unfolding any
font_found p = any (is_font p.lower) p.font_files || lists_font p.fc_list

unfoldable pub font_problem : Probes → Option Problem
unfolding font_found
font_problem p = if font_found p then none else some no_font

-- What a check adds to `checks` and to `failures`.
abbrev pub Entries : Type 0
Entries = List PreflightCheckResult × List Problem

abbrev pub entries_of : String → Option Problem → Entries
entries_of name none = (record { name = name; passed = true } ∷ [], [])
entries_of name (some problem) = (record { name = name; passed = false } ∷ [], problem ∷ [])

-- `if name not in skip:`
abbrev pub unless_skipped : List String → String → Option Problem → Option Problem
unless_skipped skip name o = if member name skip then none else o

-- `expires_at < now()`
abbrev pub is_stale : ℕ → Option LockRow → Bool
is_stale now none = false
is_stale now (some r) = ltb r.expires_at now

-- `DELETE FROM pipeline_locks WHERE expires_at < now()`
unfoldable pub delete_stale : ℕ → Tables → Tables
delete_stale now db = record db {
  pipeline_locks = λ b. if is_stale now (db.pipeline_locks b) then none else db.pipeline_locks b;
}

-- The stale locks are reported before they are deleted; an error of the `DELETE` adds a second result.
abbrev pub found_stale : Outcome String (Unit {0}) → ℕ → Tables → ℕ → Entries × Tables
found_stale (ok _) now db n =
    (entries_of "no_stale_locks" (some (stale_locks n)), delete_stale now db)
found_stale (raised e) now db n = (
  (
    record { name = "no_stale_locks"; passed = false }
        ∷ record { name = "no_stale_locks"; passed = true }
        ∷ [],
    stale_locks n ∷ [],
  ),
  db,
)

abbrev pub count_stale : Outcome String (Unit {0}) → ℕ → Tables → List String → Entries × Tables
count_stale deleted now db [] = (entries_of "no_stale_locks" none, db)
count_stale deleted now db (b ∷ bs) = found_stale deleted now db (length (b ∷ bs))

-- `books` are the keys of the lock table. That the table cannot be read is no failure.
unfoldable pub check_locks : List String → Probes → ℕ → List String → Tables → Entries × Tables
unfolding select delete_stale
check_locks skip p now books db =
    if member "no_stale_locks" skip
    then (entries_of "no_stale_locks" none, db)
    else elim p.select_locks [
      | ok _ ↦
          count_stale p.delete_locks now db (select (λ b. is_stale now (db.pipeline_locks b)) books)
      | raised e ↦ (entries_of "no_stale_locks" none, db)
    ]

abbrev pub join : Entries → Entries → Entries
join (cs, fs) (cs', fs') = (cs ++ cs', fs ++ fs')

-- The five checks that change nothing.
unfoldable pub static_checks : List String → Probes → Entries
unfolding database_problem blob_problem openai_problem env_problem font_problem
static_checks skip p =
    join
      (entries_of "database_reachable"
        (unless_skipped skip "database_reachable" (database_problem p.fetch_one p.fetch_tables)))
      (join
        (entries_of "blob_storage_accessible"
          (unless_skipped skip "blob_storage_accessible" (blob_problem p.list_containers)))
        (join
          (entries_of "openai_endpoint" (
            unless_skipped skip "openai_endpoint"
              (openai_problem p.openai_endpoint p.health_check)))
          (join
            (entries_of "env_vars_present"
              (unless_skipped skip "env_vars_present" (env_problem p.environ)))
            (entries_of "fonts_available"
              (unless_skipped skip "fonts_available" (font_problem p))))))

unfoldable pub operational_readiness_gate :
    List String → Probes → ℕ → List String → Tables → OperationalReadinessResult × Tables
unfolding static_checks check_locks
operational_readiness_gate skip p now books db =
    let (locks, db') = check_locks skip p now books db in
    let (checks, failures) =
      join (static_checks skip p) (join locks (entries_of "telemetry_configured" none)) in
    (record { passed = is_empty failures; checks = checks; failures = failures }, db')
