-- ===== src/Gates/Translation.antt =====
-- `translation_completeness_gate` of src/transpose/pipeline/gates.py. The ratios are compared with 0.30 by
-- products, as in Gates/Ocr.antt; what only goes into `details["warning"]` is left out.
use transpose.Prelude.{
  ℕ, suc, ◌+◌, ◌*◌, ◌≤◌, ◌<◌, zero-add, ◌≡◌, ◌↔◌, Bool, true, false, not, All, List, [], ◌∷◌, ◌++◌,
  ◌&&◌, max, append_assoc, append-nil, append₃-eq-nil_iff, refl, sym, arith, ltb, length,
  if◌then◌else◌, ◌∙◌, inl, inr, Bool-cases,
}
use transpose.Text.{Text, codes, contains, is_empty, count_if, non_space, is_devanagari}
use transpose.Gates.Types.{
  Failure, failed_ratio, passthrough, marker_ratio, GateResult, result, passed_iff,
  TranslationResult, TranslateOutput,
}

-- `_TRANSLATION_FAILED_MARKER in text`
unfoldable pub is_marked : Text → Bool
is_marked text = contains (codes "[TRANSLATION FAILED") text

-- `_ORIGINAL_TEXT_FALLBACK_MARKER in text`
unfoldable pub is_fallback : Text → Bool
is_fallback text = contains (codes "[Original text") text

-- More than three tenths of what is no space or line end is Devanagari.
unfoldable pub is_source_text : Text → Bool
is_source_text text =
    not (is_empty (non_space text))
    && ltb (3 * length (non_space text)) (10 * count_if is_devanagari (non_space text))

pub record Scan : Type 0 where
  pub marker_count : ℕ
  pub passthrough_count : ℕ
  pub fallback_count : ℕ
  pub failures : List Failure

-- The body of the loop over the translations.
scan_one : Scan → TranslationResult → Scan
scan_one s tr =
    if is_marked tr.translated_text
    then record s { marker_count = s.marker_count + 1 }
    else if is_fallback tr.translated_text
    then record s { fallback_count = s.fallback_count + 1 }
    else if is_source_text tr.translated_text
    then record s {
      passthrough_count = s.passthrough_count + 1;
      failures = s.failures ++ passthrough tr.chunk_id ∷ [];
    }
    else s

scan : Scan → List TranslationResult → Scan
scan s [] = s
scan s (tr ∷ trs) = scan (scan_one s tr) trs

-- `len(translations) if translations else max(chunks_translated, 1)`
unfoldable pub total_of : TranslateOutput → ℕ
total_of out =
    if is_empty out.translations then max out.chunks_translated 1 else length out.translations

ratio_failures : ℕ → ℕ → List Failure
ratio_failures failed total =
    if ltb (3 * total) (10 * failed) then failed_ratio failed total ∷ [] else []

marker_failures : ℕ → ℕ → List Failure
marker_failures marked total =
    if ltb 0 total && ltb (3 * total) (10 * marked) then marker_ratio marked total ∷ [] else []

unfoldable pub translation_completeness_gate : TranslateOutput → GateResult
unfolding scan scan_one ratio_failures marker_failures is_marked is_fallback is_source_text total_of
translation_completeness_gate out =
    let total = total_of out in
    let start : Scan = record {
      marker_count = 0;
      passthrough_count = 0;
      fallback_count = 0;
      failures = ratio_failures out.failed_count total;
    } in
    let end = scan start out.translations in
    result "translation_completeness" (end.failures ++ marker_failures end.marker_count total)

-- A translation that shows its source with no word that it does: neither marker is in it.
abbrev pub leaks : Text → Bool
leaks text = not (is_marked text) && (not (is_fallback text) && is_source_text text)

abbrev pub NoLeaks : List TranslationResult → Type 0
NoLeaks = All (λ tr. leaks tr.translated_text ≡ false)

-- How many translations hold the failure marker.
unfoldable pub marked : List TranslationResult → ℕ
marked [] = 0
marked (tr ∷ trs) = let n = marked trs in if is_marked tr.translated_text then suc n else n

leak_failures : List TranslationResult → List Failure
leak_failures [] = []
leak_failures (tr ∷ trs) =
    let rest = leak_failures trs in
    if leaks tr.translated_text then passthrough tr.chunk_id ∷ rest else rest

marker_count-scan_one :
    (s : Scan) (tr : TranslationResult)
    → (scan_one s tr).marker_count
      ≡ s.marker_count + (if is_marked tr.translated_text then 1 else 0)
unfolding scan_one
marker_count-scan_one s tr = ground arith

failures-scan_one :
    (s : Scan) (tr : TranslationResult)
    → (scan_one s tr).failures
      ≡ s.failures ++ (if leaks tr.translated_text then passthrough tr.chunk_id ∷ [] else [])
unfolding scan_one
failures-scan_one s tr = ground (arith, append-nil s.failures)

marker_count-scan :
    (s : Scan) (trs : List TranslationResult)
    → (scan s trs).marker_count ≡ s.marker_count + marked trs
unfolding scan marked
marker_count-scan s [] = omega arith
marker_count-scan s (tr ∷ trs) =
    ground (arith, marker_count-scan (scan_one s tr) trs, marker_count-scan_one s tr)

failures-scan :
    (s : Scan) (trs : List TranslationResult)
    → (scan s trs).failures ≡ s.failures ++ leak_failures trs
unfolding scan leak_failures
failures-scan s [] = sym (append-nil s.failures)
failures-scan s (tr ∷ trs) =
    failures-scan (scan_one s tr) trs
    ∙ rw (failures-scan_one s tr) (elim (Bool-cases (leaks tr.translated_text)) [
      | inl e ↦ rw e (append_assoc s.failures _ _)
      | inr e ↦ rw e (rw append-nil)
    ])

leak_failures_iff : (trs : List TranslationResult) → (leak_failures trs ≡ []) ↔ NoLeaks trs
unfolding leak_failures
leak_failures_iff [] = (λ _. tt, λ _. refl)
leak_failures_iff (tr ∷ trs) =
    let (f, f') = leak_failures_iff trs in (λ h. ground (arith, f), λ v. ground (arith, f'))

ratio_iff : (f t : ℕ) → (ratio_failures f t ≡ []) ↔ (10 * f ≤ 3 * t)
unfolding ratio_failures
ratio_iff f t = ground arith

marker_iff : (m t : ℕ) → 0 < t → (marker_failures m t ≡ []) ↔ (10 * m ≤ 3 * t)
unfolding marker_failures
marker_iff m t h = ground arith

total_of_pos : (out : TranslateOutput) → 0 < total_of out
unfolding total_of
total_of_pos out = ground arith

-- The gate's failures, in the order in which it reports them.
failures-gate :
    (out : TranslateOutput)
    → (translation_completeness_gate out).failures
      ≡ ratio_failures out.failed_count (total_of out)
        ++ (leak_failures out.translations
            ++ marker_failures (marked out.translations) (total_of out))
unfolding translation_completeness_gate
failures-gate out = rw (failures-scan, marker_count-scan, append_assoc, zero-add)

-- The gate passes exactly when at most three tenths of the chunks failed, at most three tenths of the
-- translations hold the failure marker, and none passes its source through unmarked.
pub translation_completeness_gate_iff :
    (out : TranslateOutput)
    → ((translation_completeness_gate out).passed ≡ true) ↔ (
        (10 * out.failed_count ≤ 3 * total_of out)
        × (10 * marked out.translations ≤ 3 * total_of out)
        × NoLeaks out.translations)
unfolding translation_completeness_gate
translation_completeness_gate_iff out =
    let (r, r') = ratio_iff out.failed_count (total_of out) in
    let (m, m') = marker_iff (marked out.translations) (total_of out) (total_of_pos out) in
    let (l, l') = leak_failures_iff out.translations in
    let (a, a') =
      append₃-eq-nil_iff (ratio_failures out.failed_count (total_of out))
        (leak_failures out.translations)
        (marker_failures (marked out.translations) (total_of out)) in
    passed_iff "translation_completeness" (translation_completeness_gate out).failures (
      λ e. let (x, y, z) = a (sym (failures-gate out) ∙ e) in (r x, m z, l y),
      λ v. failures-gate out ∙ a' (r' v.0, l' v.2, m' v.1),
    )
