-- ===== src/Gates/Types.antt =====
-- The result of a gate and what the gates look at (src/transpose/pipeline/gates.py, ocr.py, translate.py,
-- glossary.py, assemble.py, export.py and audiobook.py). A failure holds the values that its message
-- prints. The reports in `details`
-- and the timestamps are left out.
use transpose.Prelude.{true, ℕ, String, Bool, Option, ◌≡◌, ◌↔◌, List, []}
use transpose.Text.{Text, is_empty, is_empty_iff}

pub data Failure : Type 0 where
  replacement_chars : ℕ → ℕ → Failure
  low_density : ℕ → Failure
  low_confidence : ℕ → Failure
  failed_ratio : ℕ → ℕ → Failure
  passthrough : String → Failure
  marker_ratio : ℕ → ℕ → Failure
  no_entries : Failure
  not_nfc : Text → Failure
  replacement_in : String → Text → Failure
  latin_in_script : Text → Failure
  short_toc : ℕ → ℕ → Failure
  no_title : Failure
  not_sequential : List ℕ → Failure
  empty_toc_entries : List ℕ → Failure
  too_small : String → ℕ → Failure
  invalid_uri : String → Text → Failure
  no_artifacts : Failure
  no_audio_chapters : Failure
  audio_too_small : ℕ → ℕ → Failure
  audio_too_short : ℕ → ℕ → Failure
  audio_too_long : ℕ → ℕ → Failure
  message : String → Failure

pub record GateResult : Type 0 where
  pub gate_name : String
  pub passed : Bool
  pub failures : List Failure

-- `passed=len(failures) == 0`
abbrev pub result : String → List Failure → GateResult
result name failures = record { gate_name = name; passed = is_empty failures; failures = failures }

-- A gate passes exactly when what its failures stand for holds.
pub passed_iff {ℓ} :
    {P : Type ℓ} (name : String) (failures : List Failure)
    → (failures ≡ []) ↔ P
    → ((result name failures).passed ≡ true) ↔ P
passed_iff name failures (f, f') =
    let (e, e') = is_empty_iff failures in (λ h. f (e h), λ v. e' (f' v))

-- A confidence is a double that is not negative, kept as its bit pattern: these are ordered as the values.
pub record PageResult : Type 0 where
  pub page_number : ℕ
  pub raw_text : Option Text
  pub confidence : Option ℕ

pub record OcrOutput : Type 0 where
  pub pages_processed : ℕ
  pub pages_skipped : ℕ
  pub low_confidence_count : ℕ
  pub page_results : List PageResult

pub record TranslationResult : Type 0 where
  pub chunk_id : String
  pub translated_text : Text
  pub prompt_tokens : ℕ
  pub completion_tokens : ℕ
  pub model_version : String

pub record TranslateOutput : Type 0 where
  pub chunks_translated : ℕ
  pub chunks_skipped : ℕ
  pub total_prompt_tokens : ℕ
  pub total_completion_tokens : ℕ
  pub translations : List TranslationResult
  pub failed_count : ℕ

pub record GlossaryEntry : Type 0 where
  pub term : Text
  pub original_script : Text
  pub definition : Text

pub record GlossaryOutput : Type 0 where
  pub total_terms : ℕ
  pub needs_review_count : ℕ
  pub entries : List GlossaryEntry

-- A table of contents entry by the title that the gate reads from it.
pub record AssembleOutput : Type 0 where
  pub title : Text
  pub chapters : List ℕ
  pub table_of_contents : List Text

pub record ExportArtifact : Type 0 where
  pub format : String
  pub blob_uri : Text
  pub file_size_bytes : ℕ

pub record ChapterAudio : Type 0 where
  pub chapter_number : ℕ
  pub duration_ms : ℕ
  pub file_size_bytes : ℕ

pub record AudiobookOutput : Type 0 where
  pub chapters : List ChapterAudio
  pub total_duration_ms : ℕ
