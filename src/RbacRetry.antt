-- ===== src/RbacRetry.antt =====
-- src/transpose/services/azure_rbac_retry.py. `lower` is `str.lower`; the operation, `on_retry` and `sleep` are the
-- caller's. `W` is what they change.
pub mod Through
pub mod Delays
mod Tests
use transpose.Prelude.{
  any, ℕ, zero, suc, ◌+◌, ◌-◌, String, Bool, true, false, not, ◌||◌, Option, none, some, List, [],
  ◌∷◌, leb, ◌==◌, length, get_or, list_eq, map, if◌then◌else◌,
}
use transpose.Text.{Text, codes, contains}
use transpose.Exec.{Exec, raise, attempt, ◌>>◌}

abbrev pub rbac_retry_delays_seconds : List ℕ
rbac_retry_delays_seconds = 15 ∷ 30 ∷ 60 ∷ 60 ∷ 60 ∷ []

abbrev rbac_error_tokens : List Text
rbac_error_tokens =
    codes "you do not have the required permissions"
    ∷ codes "storage blob data contributor"
    ∷ codes "authorizationpermissionmismatch"
    ∷ codes "this request is not authorized"
    ∷ codes "insufficientaccountpermissions"
    ∷ codes "status code: 403"
    ∷ []

abbrev rbac_error_codes : List Text
rbac_error_codes =
    codes "authorizationpermissionmismatch"
    ∷ codes "authorizationfailure"
    ∷ codes "insufficientaccountpermissions"
    ∷ []

-- What the code reads of an exception; `none` is an attribute that is missing or of another type.
pub record Exc : Type 0 where
  pub status_code : Option ℕ
  pub error_code : Option Text
  pub message : Text

module _ (lower : Text → Text) where
  unfoldable pub has_status_403 : Option ℕ → Bool
  has_status_403 none = false
  has_status_403 (some c) = c == 403

  unfoldable pub has_rbac_code : Option Text → Bool
  unfolding any list_eq
  has_rbac_code none = false
  has_rbac_code (some c) = any (list_eq (lower c)) rbac_error_codes

  unfoldable pub is_rbac_propagation_error : Exc → Bool
  unfolding has_status_403 has_rbac_code any contains
  is_rbac_propagation_error exc =
      has_status_403 exc.status_code
      || (has_rbac_code exc.error_code
          || any (λ token. contains token (lower exc.message)) rbac_error_tokens)

module _ {W T : Type 0} (lower : Text → Text) (operation : Exec Exc W T)
    (on_retry : ℕ → ℕ → ℕ → Exec Exc W (Unit {0})) (sleep : ℕ → Exec Exc W (Unit {0})) where
  -- The loop `while True`, from the attempt `n`. `on_retry` gets the numbers of its message. Without fuel it
  -- is one more call; `with_rbac_retry` gives fuel for one round more than there are delays.
  unfoldable pub retry_from : List ℕ → ℕ → ℕ → Exec Exc W T
  unfolding is_rbac_propagation_error
  retry_from delays_seconds zero n = operation
  retry_from delays_seconds (suc fuel) n =
      let max_attempts = length delays_seconds + 1 in
      let sleep_seconds = get_or delays_seconds (n - 1) 0 in
      let again = retry_from delays_seconds fuel (n + 1) in
      attempt operation (λ exc.
        if not (is_rbac_propagation_error lower exc) || leb max_attempts n
        then raise exc
        else (on_retry (n + 1) max_attempts sleep_seconds >> (sleep sleep_seconds >> again)))

  unfoldable pub with_rbac_retry : List ℕ → Exec Exc W T
  unfolding retry_from
  with_rbac_retry delays_seconds = retry_from delays_seconds (length delays_seconds + 1) 1
