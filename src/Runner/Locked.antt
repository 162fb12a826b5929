-- ===== src/Runner/Locked.antt =====
-- How the lock that `run_pipeline` of src/transpose/pipeline/runner.py asks for decides whether the run goes on.
use transpose.Prelude.{
  ◌⊎◌, inl, inr, ◌≡◌, refl, String, Bool, true, false, Option, none, some, Bool-cases,
}
use transpose.Exec.{Outcome, ok, raised, Exec, when, ◌>>=◌}
use transpose.Exec.Triple.{
  Ends, Triple, Triple-weaken, Triple-bind, Triple-attempt, Keeps, Keeps-bind,
}
use transpose.Runner.Types.{Stage, ingest, PipelineInput, Exn, Error, Usage, Run, stage_name}
use transpose.Runner.Services.{Services}
use transpose.Runner.Events.{
  lift_outcome, lift, track, record_stage_start, begin_for, begin_stage_event, finish_stage,
}
use transpose.Runner.Order.{asks_for}
use transpose.Runner.Stages.{after_lock, stage_ingest}
use transpose.Runner.Program.{first_stage}

abbrev pub Any : {W : Type 0} → Run W → Type 0
Any s = Unit {0}

module _ {W : Type 0} where
  ended : {A : Type 0} (r : Outcome Error A × Run W) → Ends (λ _. Any) (λ _. Any) r
  ended (ok a, s) = tt
  ended (raised e, s) = tt

  -- A coroutine of which nothing is known.
  pub Anyhow :
      {P : Run W → Type 0} {A : Type 0} (m : Exec Error (Run W) A)
      → Triple P m (λ _. Any) (λ _. Any)
  Anyhow m = record { at = λ s h. ended (m s) }

  -- One that is followed by what matters.
  pub before :
      {P : Run W → Type 0} {A B : Type 0} (m : Exec Error (Run W) A) {f : A → Exec Error (Run W) B}
      {Q : B → Run W → Type 0}
      → ((a : A) → Triple Any (f a) Q (λ _. Any))
      → Triple P (m >>= f) Q (λ _. Any)
  before m u = Triple-bind (Anyhow m) u

module _ {W A : Type 0} where
  Ends-and :
      (Q Q' : A → Run W → Type 0) (R : Error → Run W → Type 0) (r : Outcome Error A × Run W)
      → Ends Q R r
      → Ends Q' (λ _. Any) r
      → Ends (λ a s. Q a s × Q' a s) R r
  Ends-and Q Q' R (ok a, s) h k = (h, k)
  Ends-and Q Q' R (raised e, s) h k = h

  -- What is known of a run in two ways.
  pub Triple-and :
      {P P' : Run W → Type 0} {m : Exec Error (Run W) A} {Q Q' : A → Run W → Type 0}
      {R : Error → Run W → Type 0}
      → Triple P m Q R
      → Triple P' m Q' (λ _. Any)
      → ((s : Run W) → P s → P' s)
      → Triple P m (λ a s. Q a s × Q' a s) R
  Triple-and {m} {Q} {Q'} {R} t u f = record {
    at = λ s h. Ends-and Q Q' R (m s) (t.at s h) (u.at s (f s h));
  }

-- The beginning of an event leaves the book as it is.
module _ {W : Type 0} (svc : Services W) (b : String) where
  abbrev Of : Run W → Type 0
  Of s = s.book_id ≡ some b

  ended-Of :
      {A : Type 0} (o : Outcome Exn A) (s : Run W)
      → Of s
      → Ends (λ _. Of) (λ _. Of) (lift_outcome o, s)
  ended-Of (ok a) s h = h
  ended-Of (raised x) s h = h

  Of-lift : {A : Type 0} (op : Exec Exn W A) → Keeps Of (lift op)
  unfolding lift
  Of-lift op = record {
    at = λ s h. ended-Of (op s.world).0 (record s { world = (op s.world).1 }) h;
  }

  Of-record_stage_start : (c stage : String) → Keeps Of (record_stage_start svc c stage)
  unfolding record_stage_start
  Of-record_stage_start c stage = elim (Bool-cases (svc.is_uuid c)) [
    | inl e ↦ rw e (
        Keeps-bind (Of-lift svc.uuid4) λ event_id.
          Triple-attempt
            (Keeps-bind (Of-lift (svc.insert_event event_id c stage)) λ _. record { at = λ s h. h })
            λ _. record { at = λ s h. h })
    | inr e ↦ rw e (record { at = λ s h. h })
  ]

  Of-begin_for : (o : Option String) (stage : Stage) → Keeps Of (begin_for svc o stage)
  unfolding begin_for
  Of-begin_for none stage = record { at = λ s h. h }
  Of-begin_for (some c) stage =
      Keeps-bind (record { at = λ s h. h })
        λ _.
          Keeps-bind (Of-record_stage_start c (stage_name stage)) λ event. record { at = λ s h. h }

  Of-begin_stage_event : (stage : Stage) → Keeps Of (begin_stage_event svc stage)
  unfolding begin_stage_event
  Of-begin_stage_event stage = Keeps-bind (record { at = λ s h. h }) λ o. Of-begin_for o stage

  Of-track : (c : Bool) (f : Usage → Usage) → Keeps {E = Error} Of (when c (track f))
  unfolding track
  Of-track true f = record { at = λ s h. h }
  Of-track false f = record { at = λ s h. h }

  -- `acquire_lock` was called for the book and gave this answer, just now.
  abbrev Answered : Bool → Run W → Type 0
  Answered locked s =
      (s.book_id ≡ some b) × ((w : W) × (svc.acquire_lock b w ≡ (ok locked, s.world)))

  answered :
      (s : Run W) (r : Outcome Exn Bool × W)
      → s.book_id ≡ some b
      → svc.acquire_lock b s.world ≡ r
      → Ends Answered (λ _. Any) (lift_outcome r.0, record s { world = r.1 })
  answered s (ok locked, w) h e = (h, (s.world, e))
  answered s (raised x, w) h e = tt

  Triple-acquire_lock : Triple Of (lift (svc.acquire_lock b)) Answered (λ _. Any)
  unfolding lift
  Triple-acquire_lock = record { at = λ s h. answered s (svc.acquire_lock b s.world) h refl }

module _ {W : Type 0} (svc : Services W) where
  -- `acquire_lock` refused the run its book, and all that the run did then was to set the status.
  abbrev pub WasRefused : Run W → Type 0
  WasRefused s =
      (b : String) × (before_it : W) × (behind_it : W) × (s.book_id ≡ some b)
      × (svc.acquire_lock b before_it ≡ (ok false, behind_it))
      × (s.world ≡ (svc.set_pipeline_status b "locked" behind_it).1)

  -- `acquire_lock` granted a lock.
  abbrev pub WasGranted : Type 0
  WasGranted =
      (b : String) × (before_it : W) × (behind_it : W) × (svc.acquire_lock b before_it
        ≡ (ok true, behind_it))

  refusing :
      (b : String) (s : Run W) (o : Outcome Exn (Unit {0}))
      → Answered svc b false s
      → Ends
          (λ _. WasRefused)
          (λ _. Any)
          (lift_outcome o, record s { world = (svc.set_pipeline_status b "locked" s.world).1 })
  refusing b s (ok a) (h, (w, e)) = (b, w, s.world, h, e, refl)
  refusing b s (raised x) h = tt

module _ {W : Type 0} (svc : Services W) (input : PipelineInput) where
  -- What a run that is refused, and one that goes on, had for an answer; one that resumes behind the first stage does not
  -- ask.
  abbrev pub IsAnswered : Bool → Run W → Type 0
  IsAnswered true s = WasRefused svc s
  IsAnswered false s = WasGranted svc ⊎ (asks_for input ingest ≡ false)

  Triple-after_lock :
      (b : String) (locked : Bool)
      → Triple (Answered svc b locked) (after_lock svc b locked) IsAnswered (λ _. Any)
  unfolding after_lock
  Triple-after_lock b true = record {
    at = λ s (h, (w, e)).
        (before {P = Any} (finish_stage svc ingest)
            λ _. record { at = λ s' h'. inl (b, w, s.world, e) }).at
          s tt;
  }
  Triple-after_lock b false =
      Triple-bind {Q = λ _. WasRefused svc}
        (unfold lift in
          record { at = λ s h. refusing svc b s (svc.set_pipeline_status b "locked" s.world).0 h })
        λ _. record { at = λ s h. h }

  with_any :
      {A : Type 0} {P : Run W → Type 0} {m : Exec Error (Run W) A} {Q : A → Run W → Type 0}
      {R : Error → Run W → Type 0}
      → Triple P m Q R
      → Triple P m Q (λ _. Any)
  with_any t = Triple-weaken t (λ s h. h) (λ a s h. h) (λ e s h. tt)

  Triple-stage_ingest : Triple Any (stage_ingest svc input) IsAnswered (λ _. Any)
  unfolding stage_ingest
  Triple-stage_ingest = before _ λ out.
      Triple-bind {Q = λ _. Of svc out.book_id} (record { at = λ s h. refl })
        λ _. Triple-bind (with_any (Of-track svc out.book_id _ _)) λ _.
          Triple-bind (with_any (Of-begin_stage_event svc out.book_id ingest)) λ _.
            Triple-bind (Triple-acquire_lock svc out.book_id)
              λ locked. Triple-after_lock out.book_id locked

  pub Triple-first_stage : Triple Any (first_stage svc input) IsAnswered (λ _. Any)
  unfolding first_stage
  Triple-first_stage = elim (Bool-cases (asks_for input ingest)) [
    | inl e ↦ rw e Triple-stage_ingest
    | inr e ↦ rw e (record { at = λ s h. inr e })
  ]
