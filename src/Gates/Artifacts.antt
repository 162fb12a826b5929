-- ===== src/Gates/Artifacts.antt =====
-- `artifact_availability_gate` of src/transpose/pipeline/gates.py. `os.path.isfile` and the path that `urllib`
-- reads from a file URI are not of this repository and are arguments.
use transpose.Prelude.{
  ◌≤◌, ◌≡◌, ◌≢◌, ◌↔◌, ◌⊎◌, inl, inr, refl, String, Bool, true, false, ◌||◌, List, [], ◌∷◌, ◌++◌,
  arith, ltb, ◌==◌, if◌then◌else◌, All, findings, findings_iff, append-eq-nil_iff,
}
use transpose.Text.{Text, codes, is_empty, starts_with}
use transpose.Gates.Types.{
  Failure, too_small, invalid_uri, no_artifacts, GateResult, result, passed_iff, ExportArtifact,
}

-- `uri[1] == ":"`, after `len(uri) > 2`
abbrev pub has_drive : Text → Bool
has_drive (_ ∷ c ∷ _ ∷ _) = c == b':'
has_drive _ = false

module _ (is_file : Text → Bool) (url_path : Text → Text) where
  unfoldable pub uri_is_valid : Text → Bool
  uri_is_valid uri =
      if starts_with (codes "http://") uri || starts_with (codes "https://") uri
      then true
      else if starts_with (codes "file://") uri
      then is_file (url_path uri)
      else if starts_with (codes "/") uri || has_drive uri
      then is_file uri
      else false

  -- `if uri:` …
  uri_issues : String → Text → List Failure
  uri_issues format uri =
      if is_empty uri then [] else if uri_is_valid uri then [] else invalid_uri format uri ∷ []

  artifact_issues : ExportArtifact → List Failure
  unfolding uri_issues
  artifact_issues a =
      (if ltb a.file_size_bytes 1024 then too_small a.format a.file_size_bytes ∷ [] else [])
      ++ uri_issues a.format a.blob_uri

  -- The set of formats that were found is empty exactly if there is no artifact.
  unfoldable pub artifact_availability_gate : List ExportArtifact → GateResult
  unfolding artifact_issues findings uri_is_valid
  artifact_availability_gate artifacts =
      result "artifact_availability" (
        findings artifact_issues artifacts
        ++ (if is_empty artifacts then no_artifacts ∷ [] else []))

  -- At least 1 KB, and a URI that is given leads to something: over HTTP, or to a file that is there.
  pub record IsAvailable (a : ExportArtifact) : Type 0 where
    pub whole : 1024 ≤ a.file_size_bytes
    pub reachable : (a.blob_uri ≡ []) ⊎ (uri_is_valid a.blob_uri ≡ true)

  reachable_iff :
      (n : String) (uri : Text) → (uri_issues n uri ≡ []) ↔ ((uri ≡ []) ⊎ (uri_is_valid uri ≡ true))
  unfolding uri_issues
  reachable_iff n [] = (λ _. inl refl, λ _. refl)
  reachable_iff n (c ∷ uri) = (λ h. inr (ground arith), λ v. ground arith)

  artifact_iff : (a : ExportArtifact) → (artifact_issues a ≡ []) ↔ IsAvailable a
  unfolding artifact_issues
  artifact_iff a =
      let (r, r') = reachable_iff a.format a.blob_uri in
      (
        λ h. record { whole = ground arith; reachable = r (ground arith) },
        λ v. ground (arith, r' v.reachable),
      )

  some_artifact_iff :
      (artifacts : List ExportArtifact)
      → ((if is_empty artifacts then no_artifacts ∷ [] else []) ≡ []) ↔ (artifacts ≢ [])
  some_artifact_iff [] = (λ h. cc, λ v. absurd (v refl))
  some_artifact_iff (a ∷ rest) = (λ _ h. cc, λ _. refl)

  -- The gate lets an export pass exactly when it has an artifact, of whatever format, and each is available.
  pub artifact_availability_gate_iff :
      (artifacts : List ExportArtifact)
      → ((artifact_availability_gate artifacts).passed ≡ true)
        ↔ ((artifacts ≢ []) × All IsAvailable artifacts)
  unfolding artifact_availability_gate
  artifact_availability_gate_iff artifacts =
      let (f, f') = findings_iff IsAvailable artifact_issues artifact_iff artifacts in
      let (g, g') =
        append-eq-nil_iff (findings artifact_issues artifacts)
          (if is_empty artifacts then no_artifacts ∷ [] else []) in
      let (e, e') = some_artifact_iff artifacts in
      passed_iff "artifact_availability" _ (λ h. (e (g h).1, f (g h).0), λ v. g' (f' v.1, e' v.0))
