-- ===== src/State/Tests.antt =====
-- Runs of the locks and the progress rows, and the theorems at such runs.
use transpose.Prelude.{◌≡◌, refl, true, none, some, [], ◌∷◌, arith}
use transpose.State.{Tables, PipelineState, new, acquire_lock}
use transpose.State.Locks.{acquire, calls, acquire_excludes}

abbrev empty : Tables
empty = record { pipeline_locks = λ _. none; pipeline_state = λ _. none }

abbrev alice : PipelineState
alice = record { holder_id = some "alice" }

abbrev bob : PipelineState
bob = record { holder_id = some "bob" }

abbrev locked : Tables
locked = (acquire_lock 100 "alice" new empty "book" 3600).1

expired_is_reclaimed : (acquire_lock 3701 "-" bob locked "book" 3600).2 ≡ true
unfolding acquire_lock new
expired_is_reclaimed = refl

acquire_excludes_example :
    let db = (acquire_lock 100 "alice" new empty "book" 3600).1 in
    ((calls "book" db
          (acquire 3700 "-" bob "book" 10 ∷ acquire 120 "-" bob "other" 10 ∷ [])).0.pipeline_locks
        "book"
      ≡ some (record { locked_at = 100; expires_at = 3700; holder_id = "alice" }))
    × ((calls "book" db (acquire 3700 "-" bob "book" 10 ∷ acquire 120 "-" bob "other" 10 ∷ [])).1
        ≡ 0)
unfolding acquire_lock new
acquire_excludes_example =
    acquire_excludes 100 "alice" new empty "book" 3600
      (acquire 3700 "-" bob "book" 10 ∷ acquire 120 "-" bob "other" 10 ∷ []) refl (omega arith)
