-- ===== src/Gates/PreflightTests.antt =====
-- Runs of the readiness gate where only a stale lock is found.
use transpose.Prelude.{
  arith, ◌≡◌, ◌⊎◌, ◌↔◌, refl, true, false, none, some, [], ◌∷◌, str_eq, if◌then◌else◌,
}
use transpose.Text.{codes, contains, starts_with}
use transpose.Exec.{ok}
use transpose.State.{Tables, PipelineState, acquire_lock}
use transpose.Gates.Readiness.{Probes, required_tables, is_stale, operational_readiness_gate}
use transpose.Gates.Ready.{IsReady, operational_readiness_gate_iff}
use transpose.Gates.StaleLocks.{operational_readiness_gate-acquire_lock}

abbrev healthy : Probes
healthy = record {
  fetch_one = ok true;
  fetch_tables = ok required_tables;
  list_containers = ok tt;
  openai_endpoint = "https://model";
  health_check = ok tt;
  environ = λ _. "set";
  lower = λ t. t;
  font_files = codes "notosansdevanagari.ttf" ∷ [];
  fc_list = none;
  select_locks = ok tt;
  delete_locks = ok tt;
}

abbrev one_stale : Tables
one_stale = record {
  pipeline_locks = λ b.
      if str_eq b "k"
      then some (record { locked_at = 1; expires_at = 5; holder_id = "h" })
      else none;
  pipeline_state = λ _. none;
}

abbrev new_state : PipelineState
new_state = record { holder_id = none }

operational_readiness_gate_iff_example :
    ((operational_readiness_gate [] healthy 9 ("k" ∷ []) one_stale).0.passed ≡ true)
    ↔ IsReady [] healthy 9 ("k" ∷ []) one_stale
operational_readiness_gate_iff_example =
    operational_readiness_gate_iff [] healthy 9 ("k" ∷ []) one_stale

operational_readiness_gate-acquire_lock_example :
    ((is_stale 9 (one_stale.pipeline_locks "k") ≡ true)
      ⊎ ((operational_readiness_gate [] healthy 9 ("k" ∷ []) one_stale).1.pipeline_locks "k"
          ≡ one_stale.pipeline_locks "k"))
    × ((acquire_lock 10 "n" new_state
          (operational_readiness_gate [] healthy 9 ("k" ∷ []) one_stale).1
          "k"
          60).2
        ≡ (acquire_lock 10 "n" new_state one_stale "k" 60).2)
operational_readiness_gate-acquire_lock_example =
    operational_readiness_gate-acquire_lock [] healthy 9 ("k" ∷ []) one_stale 10 "n" new_state "k"
      60 (omega arith)

-- The first run fails on the lock that it deletes.
fails_once : (operational_readiness_gate [] healthy 9 ("k" ∷ []) one_stale).0.passed ≡ false
unfolding operational_readiness_gate contains starts_with
fails_once = refl
