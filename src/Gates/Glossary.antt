-- ===== src/Gates/Glossary.antt =====
-- `glossary_integrity_gate` of src/transpose/pipeline/gates.py. `unicodedata.normalize("NFC", …)` is not of this
-- repository and is an argument.
use transpose.Prelude.{
  ◌≡◌, ◌≢◌, ◌↔◌, refl, String, true, false, not, ◌&&◌, List, [], ◌∷◌, ◌++◌, arith, ltb,
  if◌then◌else◌, All, findings, findings_iff, list_eq, list_eq_iff, append₃-eq-nil_iff,
}
use transpose.Text.{
  Text, codes, is_empty, contains, starts_with, count_if, is_latin, replacement_char,
}
use transpose.Gates.Types.{
  Failure, no_entries, not_nfc, replacement_in, latin_in_script, GateResult, result, GlossaryEntry,
  GlossaryOutput,
}

-- `term or "unknown"`
abbrev entry_id : Text → Text
entry_id t = if is_empty t then codes "unknown" else t

-- Check 3, for one field.
field_issues : Text → String → Text → List Failure
field_issues id field_name value =
    if contains (replacement_char ∷ []) value then replacement_in field_name id ∷ [] else []

-- Check 4
latin_issues : Text → Text → List Failure
latin_issues id script =
    if not (is_empty script) && ltb 0 (count_if is_latin script)
    then latin_in_script id ∷ []
    else []

-- A text without U+FFFD.
abbrev pub IsLegible : Text → Type 0
IsLegible = All (λ c. c ≢ replacement_char)

abbrev pub IsNotLatin : Text → Type 0
IsNotLatin = All (λ c. is_latin c ≡ false)

module _ (normalize_nfc : Text → Text) where
  -- Check 2
  nfc_issues : Text → Text → List Failure
  nfc_issues id script = if list_eq script (normalize_nfc script) then [] else not_nfc id ∷ []

  entry_issues : GlossaryEntry → List Failure
  unfolding nfc_issues field_issues latin_issues
  entry_issues e =
      let id = entry_id e.term in
      nfc_issues id e.original_script
      ++ ((field_issues id "term" e.term
            ++ (field_issues id "original_script" e.original_script
                ++ field_issues id "definition" e.definition))
          ++ latin_issues id e.original_script)

  -- Check 1, with its early return, and the loop over the entries.
  unfoldable pub glossary_integrity_gate : GlossaryOutput → GateResult
  unfolding entry_issues findings
  glossary_integrity_gate out =
      if is_empty out.entries
      then result "glossary_integrity" (no_entries ∷ [])
      else result "glossary_integrity" (findings entry_issues out.entries)

  pub record IsIntact (e : GlossaryEntry) : Type 0 where
    pub normal : e.original_script ≡ normalize_nfc e.original_script
    pub term_legible : IsLegible e.term
    pub script_legible : IsLegible e.original_script
    pub definition_legible : IsLegible e.definition
    pub unmixed : IsNotLatin e.original_script

contains_one_iff : (t : Text) → (contains (replacement_char ∷ []) t ≡ false) ↔ IsLegible t
unfolding contains starts_with
contains_one_iff [] = (λ _. tt, λ _. refl)
contains_one_iff (c ∷ t) =
    let (f, f') = contains_one_iff t in (λ h. ground (arith, f), λ v. ground (arith, f'))

no_latin_iff : (t : Text) → (ltb 0 (count_if is_latin t) ≡ false) ↔ IsNotLatin t
unfolding count_if
no_latin_iff [] = (λ _. tt, λ _. refl)
no_latin_iff (c ∷ t) =
    let (f, f') = no_latin_iff t in (λ h. ground (arith, f), λ v. ground (arith, f'))

field_iff : (id : Text) (n : String) (t : Text) → (field_issues id n t ≡ []) ↔ IsLegible t
unfolding field_issues
field_iff id n t =
    let (f, f') = contains_one_iff t in (λ h. f (ground arith), λ v. ground (arith, f' v))

latin_iff : (id : Text) (t : Text) → (latin_issues id t ≡ []) ↔ IsNotLatin t
unfolding latin_issues
latin_iff id [] = (λ _. tt, λ _. refl)
latin_iff id (c ∷ t) =
    let (f, f') = no_latin_iff (c ∷ t) in (λ h. f (ground arith), λ v. ground (arith, f' v))

module _ (normalize_nfc : Text → Text) where
  nfc_iff : (id t : Text) → (nfc_issues normalize_nfc id t ≡ []) ↔ (t ≡ normalize_nfc t)
  unfolding nfc_issues
  nfc_iff id t =
      let (f, f') = list_eq_iff t (normalize_nfc t) in
      (λ h. f (ground arith), λ v. ground (arith, f' v))

  entry_iff : (e : GlossaryEntry) → (entry_issues normalize_nfc e ≡ []) ↔ IsIntact normalize_nfc e
  unfolding entry_issues
  entry_iff e =
      let id = entry_id e.term in
      let (n, n') = nfc_iff id e.original_script in
      let (t, t') = field_iff id "term" e.term in
      let (s, s') = field_iff id "original_script" e.original_script in
      let (d, d') = field_iff id "definition" e.definition in
      let (l, l') = latin_iff id e.original_script in
      let (a, a') =
        append₃-eq-nil_iff (field_issues id "term" e.term)
          (field_issues id "original_script" e.original_script)
          (field_issues id "definition" e.definition) in
      let (b, b') =
        append₃-eq-nil_iff (nfc_issues normalize_nfc id e.original_script)
          (field_issues id "term" e.term
            ++ (field_issues id "original_script" e.original_script
                ++ field_issues id "definition" e.definition))
          (latin_issues id e.original_script) in
      (
        λ h. record {
          normal = n (b h).0;
          term_legible = t (a (b h).1).0;
          script_legible = s (a (b h).1).1;
          definition_legible = d (a (b h).1).2;
          unmixed = l (b h).2;
        },
        λ v. b' (
          n' v.normal,
          a' (t' v.term_legible, s' v.script_legible, d' v.definition_legible),
          l' v.unmixed,
        ),
      )

  -- The gate lets a glossary pass exactly when it has an entry and every entry is intact: its script is in
  -- normal form and has no Latin letter, and no field of it has a replacement character.
  pub glossary_integrity_gate_iff :
      (out : GlossaryOutput)
      → ((glossary_integrity_gate normalize_nfc out).passed ≡ true)
        ↔ ((out.entries ≢ []) × All (IsIntact normalize_nfc) out.entries)
  unfolding glossary_integrity_gate
  glossary_integrity_gate_iff out =
      let (f, f') =
        findings_iff (IsIntact normalize_nfc) (entry_issues normalize_nfc) entry_iff out.entries in
      (λ h. (ground arith, f (ground arith)), λ v. ground (arith, v.0, f' v.1))
