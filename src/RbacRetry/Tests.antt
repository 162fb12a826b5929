-- ===== src/RbacRetry/Tests.antt =====
-- Retries of src/transpose/services/azure_rbac_retry.py, and the theorem at one.
use transpose.Prelude.{false, ℕ, zero, suc, String, ◌≡◌, refl, none, some, List, [], ◌∷◌}
use transpose.Text.{Text, codes, starts_with}
use transpose.Exec.{Exec, ok, raised, attempt, ◌>>=◌}
use transpose.Exec.Triple.{Ends}
use transpose.RbacRetry.{Exc, rbac_retry_delays_seconds, is_rbac_propagation_error, with_rbac_retry}
use transpose.RbacRetry.Delays.{
  unused, counted, noted, quiet, Succeeded, GaveUp, with_rbac_retry_lem,
}

abbrev lower : Text → Text
lower t = t

abbrev forbidden : Exc
forbidden = record { status_code = some 403; error_code = none; message = codes "no" }

abbrev missing : Exc
missing = record { status_code = some 404; error_code = none; message = codes "no blob" }

-- As many propagation errors as the state says, and then a text.
abbrev lagging : Exec Exc ℕ String
lagging zero = (ok "done", zero)
lagging (suc n) = (raised forbidden, n)

abbrev slept_of : ℕ → List ℕ
slept_of n =
    ((with_rbac_retry lower (counted lagging) quiet noted rbac_retry_delays_seconds (unused n)).1
    ).slept

two_delays : slept_of 2 ≡ 15 ∷ 30 ∷ []
unfolding with_rbac_retry attempt ◌>>=◌
two_delays = refl

missing_is_raised : is_rbac_propagation_error lower missing ≡ false
unfolding is_rbac_propagation_error starts_with
missing_is_raised = refl

with_rbac_retry_lem_example :
    Ends
      (λ a. Succeeded rbac_retry_delays_seconds (unused 2))
      (GaveUp lower rbac_retry_delays_seconds (unused 2))
      (with_rbac_retry lower (counted lagging) quiet noted rbac_retry_delays_seconds (unused 2))
with_rbac_retry_lem_example = with_rbac_retry_lem lower lagging rbac_retry_delays_seconds 2
