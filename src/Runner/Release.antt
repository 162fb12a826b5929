-- ===== src/Runner/Release.antt =====
-- The lock of the book when `run_pipeline` of src/transpose/pipeline/runner.py is over.
use transpose.Prelude.{
  ◌⊎◌, inl, inr, ◌≡◌, refl, String, Bool, true, false, Option, none, some, List,
}
use transpose.Exec.{Outcome, ok, raised, Exec, raise, gets, ◌>>=◌, ◌>>◌}
use transpose.Exec.Triple.{Triple, Triple-weaken, Triple-bind, Triple-attempt}
use transpose.Runner.Types.{Stage, failed, PipelineInput, Exn, Error, Run}
use transpose.Runner.Services.{Services}
use transpose.Runner.Handler.{IsReliable, Sure, Sure-end_stage_event, Sure-publish_report}
use transpose.Gates.Types.{GateResult}
use transpose.Runner.Program.{
  release_for, release, finish, after_first, body, on_error, guarded, fail_book,
}
use transpose.Exec.Triple.{Ends, Ends-weaken}
use mathlib.Core.Path.{subst}
use transpose.Runner.Events.{lift_outcome, lift}
use transpose.Runner.Locked.{Any, before, WasRefused, IsAnswered, Triple-first_stage}

-- A service that frees a book's lock by `release_lock`, in a world where `IsFree` says that it is free.
abbrev pub Frees : {W : Type 0} → Services W → (W → String → Type 0) → Type 0
Frees {W} svc IsFree = (b : String) (w : W) → IsFree (svc.release_lock b w).1 b

module _ {W : Type 0} (svc : Services W) (input : PipelineInput)
    (IsFree : W → String → Type 0) where
  -- The lock of the run's book is free, if it has one.
  abbrev pub Freed : Run W → Type 0
  Freed s = (b : String) → s.book_id ≡ some b → IsFree s.world b

  -- Refused the lock, or with a free one.
  abbrev pub RefusedOrFreed : Bool → Run W → Type 0
  RefusedOrFreed refused s = ((refused ≡ true) × WasRefused svc s) ⊎ Freed s

  module _ (frees : Frees svc IsFree) where
    released :
        (b : String) (s : Run W) (o : Outcome Exn (Unit {0}))
        → s.book_id ≡ some b
        → Ends
            (λ _. Freed)
            (λ _. Any)
            (lift_outcome o, record s { world = (svc.release_lock b s.world).1 })
    released b s (ok a) e = λ b' e'.
        let same : b ≡ b' = cc in
        subst (λ k. IsFree (svc.release_lock b s.world).1 k) same (frees b s.world)
    released b s (raised x) e = tt

    release-Freed : Triple Any (release svc) (λ _. Freed) (λ _. Any)
    unfolding release release_for lift ◌>>=◌
    release-Freed = record { at = λ s h. by_book s.book_id s refl }
      where
        by_book :
            (o : Option String) (s : Run W)
            → s.book_id ≡ o
            → Ends (λ _. Freed) (λ _. Any) (release_for svc o s)
        by_book none s e = λ b e'. cc
        by_book (some b) s e = released b s (svc.release_lock b s.world).0 e

    finish-Freed : Triple Any (finish svc input) (λ _. Freed) (λ _. Any)
    unfolding finish
    finish-Freed = before _ λ _. before _ λ _. before _ λ _. release-Freed

    body-Freed : Triple Any (body svc input) RefusedOrFreed (λ _. Any)
    unfolding body after_first
    body-Freed = Triple-bind (Triple-first_stage svc input) by_case
      where
        by_case :
            (refused : Bool)
            → Triple
                (IsAnswered svc input refused)
                (after_first svc input refused)
                RefusedOrFreed
                (λ _. Any)
        by_case true = record { at = λ s h. inl (refl, h) }
        by_case false = before _ λ _. Triple-bind finish-Freed λ _. record { at = λ s h. inr h }

    module _ (reliable : IsReliable svc) where
      -- What surely returns, whatever the lists are, returns.
      sure :
          {A : Type 0} (m : Exec Error (Run W) A)
          → ((c : List Stage) (g : List GateResult) → Sure c g m)
          → Triple Any m (λ _. Any) (λ _ _. ⊥)
      sure m t = record {
        at = λ s h.
            Ends-weaken (m s) (λ a s' k. tt) (λ e s' k. k)
              ((t s.stages_completed s.gate_results).at s (refl, refl));
      }

      first :
          {A B : Type 0} {m : Exec Error (Run W) A} {f : A → Exec Error (Run W) B}
          → Triple Any m (λ _. Any) (λ _ _. ⊥)
          → ((a : A) → Triple Any (f a) (λ _ _. ⊥) (λ _. Freed))
          → Triple Any (m >>= f) (λ _ _. ⊥) (λ _. Freed)
      first t u = Triple-bind (Triple-weaken t (λ s h. h) (λ a s h. h) (λ e s h. absurd h)) u

      failing : (e : Error) → Triple Freed (raise {A = Bool} e) (λ _ _. ⊥) (λ _. Freed)
      failing e = record { at = λ s h. h }

      updated :
          (b : String) (s : Run W) (o : Outcome Exn (Unit {0}))
          → o ≡ ok tt
          → s.book_id ≡ some b
          → Ends (λ _ s'. s'.book_id ≡ some b) (λ _ _. ⊥) (lift_outcome o, s)
      updated b s (ok a) h e = e
      updated b s (raised x) h e = cc

      freeing :
          (b : String) (s : Run W) (o : Outcome Exn (Unit {0}))
          → o ≡ ok tt
          → s.book_id ≡ some b
          → Ends
              (λ _. Freed)
              (λ _ _. ⊥)
              (lift_outcome o, record s { world = (svc.release_lock b s.world).1 })
      freeing b s (ok a) h e = released b s (ok a) e
      freeing b s (raised x) h e = cc

      fail_some-Freed :
          (b : String)
          → Triple (λ s. s.book_id ≡ some b) (fail_book svc (some b)) (λ _. Freed) (λ _ _. ⊥)
      unfolding fail_book lift
      fail_some-Freed b =
          Triple-bind (record { at = λ s e. updated b _ _ (reliable.updates b failed s.world) e })
            λ _. record { at = λ s e. freeing b s _ (reliable.releases b s.world) e }

      -- The end of the handlers, from the book of the state.
      giving_up :
          (e : Error)
          → Triple Any
              (gets (λ s. s.book_id) >>= λ b. fail_book svc b >> raise {A = Bool} e)
              (λ _ _. ⊥)
              (λ _. Freed)
      giving_up e = record { at = λ s h. unfold ◌>>=◌ in by_book s.book_id s refl }
        where
          by_book :
              (o : Option String) (s : Run W)
              → s.book_id ≡ o
              → Ends (λ _ _. ⊥) (λ _. Freed) ((fail_book svc o >> raise {A = Bool} e) s)
          by_book none s q = unfold fail_book ◌>>=◌ in λ b e'. cc
          by_book (some b) s q =
              (Triple-bind
                  (Triple-weaken (fail_some-Freed b) (λ s' h. h) (λ a s' h. h)
                    (λ e' s' no. absurd no))
                  λ _. failing e).at
                s q

      on_error-Freed : (e : Error) → Triple Any (on_error svc input e) (λ _ _. ⊥) (λ _. Freed)
      unfolding on_error
      on_error-Freed e = first (sure _ λ c g. Sure-end_stage_event svc c g "failed") λ _.
          first (record { at = λ s h. tt })
            λ _.
              first (sure _ λ c g. Sure-publish_report svc c g reliable input none) λ _. giving_up e

      -- Once the preflight is over, a run leaves its book's lock free: when it raises, whatever Exception it raises, and
      -- when it returns, unless acquire_lock refused it the lock of its book, and all that it did then was to set the
      -- status. The services that the handlers call are taken to answer, and `release_lock` to free.
      pub guarded-Freed : (s : Run W) → Ends RefusedOrFreed (λ _. Freed) (guarded svc input s)
      unfolding guarded
      guarded-Freed s =
          (Triple-attempt body-Freed λ e.
              Triple-weaken (on_error-Freed e) (λ s' h. h) (λ a s' no. absurd no) (λ e' s' h. h)).at
            s tt
