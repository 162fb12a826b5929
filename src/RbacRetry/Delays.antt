-- ===== src/RbacRetry/Delays.antt =====
-- How often `with_rbac_retry` of src/transpose/services/azure_rbac_retry.py calls its operation, and how long it
-- sleeps: a log counts the calls and lists the delays.
use transpose.Prelude.{
  ℕ, ◌+◌, ◌≡◌, ◌⊎◌, inl, inr, refl, Bool, true, false, List, [], ◌∷◌, ◌++◌, length, append-nil,
  append_assoc, if◌then◌else◌, ◌∙◌, sym, ap, arith,
}
use transpose.Text.{Text}
use transpose.Exec.{handle, Outcome, ok, raised, Exec, raise, pure, attempt, ◌>>◌, ◌>>=◌}
use transpose.Exec.Triple.{Ends, Ends-weaken}
use transpose.RbacRetry.{Exc, is_rbac_propagation_error, with_rbac_retry}
use transpose.RbacRetry.Through.{retry_through, with_rbac_retry-through}

pub record Log (W : Type 0) : Type 0 where
  pub world : W
  pub calls : ℕ
  pub slept : List ℕ

abbrev pub unused : {W : Type 0} → W → Log W
unused w = record { world = w; calls = 0; slept = [] }

abbrev pub counted : {W T : Type 0} → Exec Exc W T → Exec Exc (Log W) T
counted operation s =
    let (o, w) = operation s.world in (o, record s { world = w; calls = s.calls + 1 })

abbrev pub noted : {W : Type 0} → ℕ → Exec Exc (Log W) (Unit {0})
noted d s = (ok tt, record s { slept = s.slept ++ d ∷ [] })

abbrev pub quiet : {W : Type 0} → ℕ → ℕ → ℕ → Exec Exc W (Unit {0})
quiet n m d = pure tt

-- One call more than there were delays, which are the `delays` before `rest`.
pub record Waited {W : Type 0} (delays rest : List ℕ) (from to : Log W) : Type 0 where
  pub first : List ℕ
  pub split : first ++ rest ≡ delays
  pub slept : to.slept ≡ from.slept ++ first
  pub calls : to.calls ≡ from.calls + (length first + 1)

abbrev pub Succeeded : {W : Type 0} → List ℕ → Log W → Log W → Type 0
Succeeded delays from to = (rest : List ℕ) × Waited delays rest from to

-- The exception was no propagation error, or no delay is left.
abbrev pub GaveUp : {W : Type 0} → (Text → Text) → List ℕ → Log W → Exc → Log W → Type 0
GaveUp lower delays from exc to =
    (rest : List ℕ) × Waited delays rest from to
    × ((is_rbac_propagation_error lower exc ≡ false) ⊎ (rest ≡ []))

at_once :
    {W : Type 0} (delays : List ℕ) (from to : Log W)
    → to.slept ≡ from.slept
    → to.calls ≡ from.calls + 1
    → Waited delays delays from to
at_once delays from to e c = record {
  first = [];
  split = refl;
  slept = e ∙ sym (append-nil from.slept);
  calls = omega arith;
}

later :
    {W : Type 0} (d : ℕ) (ds rest : List ℕ) (from middle to : Log W)
    → middle.slept ≡ from.slept ++ d ∷ []
    → middle.calls ≡ from.calls + 1
    → Waited ds rest middle to
    → Waited (d ∷ ds) rest from to
later d ds rest from middle to e c v = record {
  first = d ∷ v.first;
  split = ap (λ l. d ∷ l) v.split;
  slept = v.slept ∙ rw e (append_assoc from.slept (d ∷ []) v.first);
  calls = omega (arith, v.calls);
}

module _ {W T : Type 0} (lower : Text → Text) (operation : Exec Exc W T) where
  abbrev Result : List ℕ → Log W → Outcome Exc T × Log W → Type 0
  Result delays from r = Ends (λ a. Succeeded delays from) (GaveUp lower delays from) r

  Result-later :
      (d : ℕ) (ds : List ℕ) (from middle : Log W) (r : Outcome Exc T × Log W)
      → middle.slept ≡ from.slept ++ d ∷ []
      → middle.calls ≡ from.calls + 1
      → Result ds middle r
      → Result (d ∷ ds) from r
  Result-later d ds from middle r e c v =
      Ends-weaken r (λ a to h. (h.0, later d ds h.0 from middle to e c h.1))
        (λ x to h. (h.0, later d ds h.0 from middle to e c h.1, h.2)) v

  last_call :
      (from : Log W) (o : Outcome Exc T) (w : W)
      → Result [] from (o, record from { world = w; calls = from.calls + 1 })
  last_call from (ok a) w = ([], at_once [] from _ refl refl)
  last_call from (raised x) w = ([], at_once [] from _ refl refl, inr refl)

  -- One round: the call has ended with `o`, and the rounds after it end well.
  by_kind :
      (m n d : ℕ) (ds : List ℕ) (from : Log W) (again : Exec Exc (Log W) T)
      → ((middle : Log W) → Result ds middle (again middle))
      → (w : W) (x : Exc) (transient : Bool) → is_rbac_propagation_error lower x ≡ transient
      → Result (d ∷ ds) from (
          (if transient then (quiet n m d >> (noted d >> again)) else raise x)
            (record from { world = w; calls = from.calls + 1 }))
  unfolding ◌>>=◌
  by_kind m n d ds from again ih w x true e =
      let middle : Log W = record {
        world = w;
        calls = from.calls + 1;
        slept = from.slept ++ d ∷ [];
      } in
      Result-later d ds from middle (again middle) refl refl (ih middle)
  by_kind m n d ds from again ih w x false e = (d ∷ ds, at_once (d ∷ ds) from _ refl refl, inl e)

  one_round :
      (m n d : ℕ) (ds : List ℕ) (from : Log W) (again : Exec Exc (Log W) T)
      → ((middle : Log W) → Result ds middle (again middle))
      → (o : Outcome Exc T) (w : W)
      → Result (d ∷ ds) from (
          handle
            (o, record from { world = w; calls = from.calls + 1 })
            (λ exc.
              if is_rbac_propagation_error lower exc
              then (quiet n m d >> (noted d >> again))
              else raise exc))
  one_round m n d ds from again ih (ok a) w = (d ∷ ds, at_once (d ∷ ds) from _ refl refl)
  one_round m n d ds from again ih (raised x) w =
      by_kind m n d ds from again ih w x (is_rbac_propagation_error lower x) refl

  retry_through_lem :
      (m n : ℕ) (delays : List ℕ) (from : Log W)
      → Result delays from (retry_through lower (counted operation) quiet noted m n delays from)
  unfolding retry_through attempt
  retry_through_lem m n [] from = last_call from (operation from.world).0 (operation from.world).1
  retry_through_lem m n (d ∷ ds) from =
      one_round m (n + 1) d ds from _ (retry_through_lem m (n + 1) ds) (operation from.world).0
        (operation from.world).1

  -- Whatever the operation does, it is called once more than the caller sleeps, and the sleeps are the first
  -- of the delays, in order. If the retry raises, then the last exception was no propagation error, or every
  -- delay was slept.
  pub with_rbac_retry_lem :
      (delays : List ℕ) (w : W)
      → Ends
          (λ a. Succeeded delays (unused w))
          (GaveUp lower delays (unused w))
          (with_rbac_retry lower (counted operation) quiet noted delays (unused w))
  with_rbac_retry_lem delays w =
      rw (with_rbac_retry-through lower (counted operation) quiet noted delays)
        (retry_through_lem (length delays + 1) 1 delays (unused w))
