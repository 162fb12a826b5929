-- ===== src/RbacRetry/Through.antt =====
-- What `with_rbac_retry` of src/transpose/services/azure_rbac_retry.py does with its delays.
use mathlib.Core.Path.{fun_ext}
use transpose.Prelude.{
  ℕ, zero, suc, ◌+◌, ◌-◌, ◌<◌, ◌≡◌, refl, Bool, true, false, not, ◌||◌, List, [], ◌∷◌, ◌++◌, leb,
  length, get_or, append-nil, append_assoc, length-append, if◌then◌else◌, ◌∙◌, ap, arith,
}
use transpose.Text.{Text}
use transpose.Exec.{handle, Outcome, ok, raised, Exec, raise, attempt, ◌>>◌}
use transpose.RbacRetry.{Exc, is_rbac_propagation_error, retry_from, with_rbac_retry}

attempt-raise : {E S A : Type 0} (m : Exec E S A) → attempt m raise ≡ m
unfolding attempt
attempt-raise m = fun_ext λ s. by_outcome (m s).0 (m s).1
  where
    by_outcome : {E S A : Type 0} (o : Outcome E A) (s : S) → handle (o, s) raise ≡ (o, s)
    by_outcome (ok a) s = refl
    by_outcome (raised e) s = refl

get_or-append : (pre : List ℕ) (d : ℕ) (ds : List ℕ) → get_or (pre ++ d ∷ ds) (length pre) 0 ≡ d
get_or-append [] d ds = refl
get_or-append (p ∷ pre) d ds = get_or-append pre d ds

module _ {W T : Type 0} (lower : Text → Text) (operation : Exec Exc W T)
    (on_retry : ℕ → ℕ → ℕ → Exec Exc W (Unit {0})) (sleep : ℕ → Exec Exc W (Unit {0})) where
  -- The operation once more for each delay that is left, as long as it raises a propagation error.
  unfoldable pub retry_through : ℕ → ℕ → List ℕ → Exec Exc W T
  retry_through max_attempts n [] = operation
  retry_through max_attempts n (d ∷ ds) =
      let again = retry_through max_attempts (n + 1) ds in
      attempt operation (λ exc.
        if is_rbac_propagation_error lower exc
        then (on_retry (n + 1) max_attempts d >> (sleep d >> again))
        else raise exc)

  given_up :
      (transient : Bool) (m n : ℕ) (exc : Exc) (again : Exec Exc W T)
      → n ≡ m
      → (if not transient || leb m n then raise exc else again) ≡ raise exc
  given_up true m n exc again e = ground arith
  given_up false m n exc again e = refl

  tried_again :
      (transient : Bool) (m n : ℕ) (exc : Exc) (again : Exec Exc W T)
      → n < m
      → (if not transient || leb m n then raise exc else again)
        ≡ (if transient then again else raise exc)
  tried_again true m n exc again e = ground arith
  tried_again false m n exc again e = refl

  retry_from_lem :
      (pre ds : List ℕ) (fuel n : ℕ)
      → n ≡ length pre + 1
      → length ds < fuel
      → retry_from lower operation on_retry sleep (pre ++ ds) fuel n
        ≡ retry_through (length (pre ++ ds) + 1) n ds
  unfolding retry_from retry_through
  retry_from_lem pre ds zero n e h = absurd (none_below h)
    where
      none_below : length ds < 0 → ⊥
      none_below p = omega arith
  retry_from_lem pre [] (suc fuel) n e h =
      ap (λ f. attempt operation f)
        (fun_ext λ exc.
          given_up (is_rbac_propagation_error lower exc) (length (pre ++ []) + 1) n exc _
            (rw append-nil e))
      ∙ attempt-raise operation
  retry_from_lem pre (d ∷ ds) (suc fuel) n e h =
      let index : n - 1 ≡ length pre = omega arith in
      let delay : get_or (pre ++ d ∷ ds) (n - 1) 0 ≡ d = rw index (get_or-append pre d ds) in
      let grown : n + 1 ≡ length (pre ++ d ∷ []) + 1 = omega (arith, length-append pre (d ∷ [])) in
      let rest : retry_from lower operation on_retry sleep (pre ++ d ∷ ds) fuel (n + 1)
          ≡ retry_through (length (pre ++ d ∷ ds) + 1) (n + 1) ds =
        rw (append_assoc pre (d ∷ []) ds) at
          (retry_from_lem (pre ++ d ∷ []) ds fuel (n + 1) grown (omega arith)) in
      ap (λ f. attempt operation f)
        (fun_ext λ exc.
          rw (delay, rest)
            (tried_again (is_rbac_propagation_error lower exc) (length (pre ++ d ∷ ds) + 1) n exc _
              (omega (arith, length-append pre (d ∷ ds)))))

  -- The loop over attempt numbers is the recursion over the delays.
  pub with_rbac_retry-through :
      (delays : List ℕ)
      → with_rbac_retry lower operation on_retry sleep delays
        ≡ retry_through (length delays + 1) 1 delays
  unfolding with_rbac_retry
  with_rbac_retry-through delays =
      retry_from_lem [] delays (length delays + 1) 1 (omega arith) (omega arith)
