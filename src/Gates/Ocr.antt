-- ===== src/Gates/Ocr.antt =====
-- `ocr_sanity_gate` of src/transpose/pipeline/gates.py. A quotient of two counts is compared with the
-- threshold 0.05 by products: the correctly rounded quotient of counts below 2 ^ 49 falls on the same side.
use transpose.Prelude.{
  ℕ, ◌*◌, ◌≤◌, ◌≡◌, ◌↔◌, ◌⊎◌, true, not, Option, none, some, List, [], ◌∷◌, ◌++◌, max, All,
  findings, findings_iff, append₃-eq-nil_iff, refl, arith, ltb, ◌==◌, length, if◌then◌else◌,
}
use transpose.Text.{Text, is_empty, is_blank, count_if, non_space, is_devanagari, replacement_char}
use transpose.Gates.Types.{
  Failure, replacement_chars, low_density, low_confidence, GateResult, result, passed_iff,
  PageResult, OcrOutput,
}

-- `page.raw_text or ""`
abbrev pub text_of : Option Text → Text
text_of none = []
text_of (some t) = t

abbrev replacements : Text → ℕ
replacements = count_if (λ c. c == replacement_char)

-- Check 1
replacement_issues : ℕ → Text → List Failure
replacement_issues page_num text =
    if not (is_empty text)
    then (if ltb (max (length text) 1) (20 * replacements text)
        then replacement_chars page_num (replacements text) ∷ []
        else [])
    else []

-- Check 2
density_issues : ℕ → Text → List Failure
density_issues page_num text =
    if not (is_blank text)
    then (if ltb 0 (length (non_space text))
        then (if ltb (20 * count_if is_devanagari text) (length (non_space text))
            then low_density page_num ∷ []
            else [])
        else [])
    else []

-- Check 3
confidence_issues : ℕ → ℕ → Option ℕ → List Failure
confidence_issues min_confidence page_num none = []
confidence_issues min_confidence page_num (some c) =
    if ltb c min_confidence then low_confidence page_num ∷ [] else []

page_issues : ℕ → PageResult → List Failure
unfolding replacement_issues density_issues confidence_issues
page_issues min_confidence page =
    replacement_issues page.page_number (text_of page.raw_text)
    ++ (density_issues page.page_number (text_of page.raw_text)
        ++ confidence_issues min_confidence page.page_number page.confidence)

unfoldable pub ocr_sanity_gate : ℕ → OcrOutput → GateResult
unfolding findings page_issues
ocr_sanity_gate min_confidence ocr_output =
    result "ocr_sanity" (findings (page_issues min_confidence) ocr_output.page_results)

-- A page that is fit for chunking: at most one character in twenty is U+FFFD, at least one in twenty of a text
-- that is not blank is Devanagari, and a confidence that is reported reaches the threshold.
pub record IsSane (min_confidence : ℕ) (page : PageResult) : Type 0 where
  pub legible : 20 * replacements (text_of page.raw_text) ≤ max (length (text_of page.raw_text)) 1
  pub in_script :
      (is_blank (text_of page.raw_text) ≡ true)
      ⊎ (length (non_space (text_of page.raw_text))
          ≤ 20 * count_if is_devanagari (text_of page.raw_text))
  pub trusted : (c : ℕ) → page.confidence ≡ some c → min_confidence ≤ c

legible_iff :
    (n : ℕ) (t : Text) → (replacement_issues n t ≡ []) ↔ (20 * replacements t ≤ max (length t) 1)
unfolding replacement_issues count_if
legible_iff n [] = ground arith
legible_iff n (c ∷ t) = ground arith

in_script_iff :
    (n : ℕ) (t : Text)
    → (density_issues n t ≡ [])
      ↔ ((is_blank t ≡ true) ⊎ (length (non_space t) ≤ 20 * count_if is_devanagari t))
unfolding density_issues
in_script_iff n t = ground arith

trusted_iff :
    (m n : ℕ) (o : Option ℕ) → (confidence_issues m n o ≡ []) ↔ ((c : ℕ) → o ≡ some c → m ≤ c)
unfolding confidence_issues
trusted_iff m n none = (λ _ c e. cc, λ _. refl)
trusted_iff m n (some c) = (λ h c' e. ground arith, λ h. ground (arith, h c refl))

page_issues_iff : (m : ℕ) (p : PageResult) → (page_issues m p ≡ []) ↔ IsSane m p
unfolding page_issues
page_issues_iff m p =
    let (l, l') = legible_iff p.page_number (text_of p.raw_text) in
    let (d, d') = in_script_iff p.page_number (text_of p.raw_text) in
    let (t, t') = trusted_iff m p.page_number p.confidence in
    let (a, a') =
      append₃-eq-nil_iff (replacement_issues p.page_number (text_of p.raw_text))
        (density_issues p.page_number (text_of p.raw_text))
        (confidence_issues m p.page_number p.confidence) in
    (
      λ h. record { legible = l (a h).0; in_script = d (a h).1; trusted = t (a h).2 },
      λ v. a' (l' v.legible, d' v.in_script, t' v.trusted),
    )

-- The gate lets an OCR output pass exactly when every page of it is sane.
pub ocr_sanity_gate_iff :
    (m : ℕ) (out : OcrOutput)
    → ((ocr_sanity_gate m out).passed ≡ true) ↔ All (IsSane m) out.page_results
unfolding ocr_sanity_gate
ocr_sanity_gate_iff m out =
    passed_iff "ocr_sanity" _
      (findings_iff (IsSane m) (page_issues m) (page_issues_iff m) out.page_results)
