-- ===== src/Gates/Tests.antt =====
-- The gates of src/transpose/pipeline/gates.py at concrete inputs: what passes, what does not, and the theorems
-- there.
use transpose.Prelude.{
  drop, list_eq, ◌≡◌, ◌↔◌, refl, Bool, true, none, some, List, [], ◌∷◌, ◌*◌, ◌≤◌, All,
}
use transpose.Gates.Types.{
  replacement_chars, low_density, low_confidence, passthrough, no_entries, short_toc, no_title,
  not_sequential, empty_toc_entries, PageResult, OcrOutput, TranslationResult, TranslateOutput,
  GlossaryOutput, AssembleOutput, ExportArtifact, AudiobookOutput,
}
use transpose.Gates.Ocr.{ocr_sanity_gate, IsSane, ocr_sanity_gate_iff}
use transpose.Gates.Translation.{
  translation_completeness_gate, total_of, marked, NoLeaks, translation_completeness_gate_iff,
}
use transpose.Gates.Glossary.{glossary_integrity_gate}
use transpose.Gates.Structure.{document_structure_gate, IsWellFormed, document_structure_gate_iff}
use transpose.Gates.Artifacts.{artifact_availability_gate, uri_is_valid}
use transpose.Gates.Audio.{audio_quality_gate}
use transpose.Text.{
  count_if, is_blank, is_space, non_space, remove_char, contains, strip, rstrip, lstrip,
  starts_with, Text, codes,
}

abbrev sloka : Text
sloka = codes "धर्मक्षेत्रे कुरुक्षेत्रे"

abbrev pages : OcrOutput
pages = record {
  pages_processed = 2;
  pages_skipped = 0;
  low_confidence_count = 0;
  page_results =
      record { page_number = 1; raw_text = some sloka; confidence = some 90 }
      ∷ record { page_number = 2; raw_text = none; confidence = none }
      ∷ [];
}

-- A page of Latin letters with a replacement character, below the threshold.
abbrev bad_page : PageResult
bad_page = record { page_number = 7; raw_text = some (0xFFFD ∷ codes "abc"); confidence = some 10 }

pages_pass : (ocr_sanity_gate 80 pages).passed ≡ true
unfolding ocr_sanity_gate count_if is_blank is_space non_space remove_char
pages_pass = refl

bad_page_fails :
    (ocr_sanity_gate 80 (record pages { page_results = bad_page ∷ [] })).failures
    ≡ replacement_chars 7 1 ∷ low_density 7 ∷ low_confidence 7 ∷ []
unfolding ocr_sanity_gate count_if is_blank is_space non_space remove_char
bad_page_fails = refl

ocr_sanity_gate_iff_example :
    ((ocr_sanity_gate 80 pages).passed ≡ true) ↔ All (IsSane 80) pages.page_results
ocr_sanity_gate_iff_example = ocr_sanity_gate_iff 80 pages

abbrev translation : Text → TranslationResult
translation t = record {
  chunk_id = "c";
  translated_text = t;
  prompt_tokens = 10;
  completion_tokens = 12;
  model_version = "m";
}

abbrev translations : TranslateOutput
translations = record {
  chunks_translated = 3;
  chunks_skipped = 0;
  total_prompt_tokens = 30;
  total_completion_tokens = 36;
  translations =
      translation (codes "In the field of dharma")
      ∷ translation (codes "[Original text — translation unavailable] ")
      ∷ translation (codes "In the field of the Kurus")
      ∷ [];
  failed_count = 0;
}

translations_pass : (translation_completeness_gate translations).passed ≡ true
unfolding translation_completeness_gate contains starts_with non_space remove_char count_if
translations_pass = refl

-- A translation that is the source fails the gate.
source_fails :
    (translation_completeness_gate
      (record translations { translations = translation sloka ∷ [] })).failures
    ≡ passthrough "c" ∷ []
unfolding translation_completeness_gate contains starts_with non_space remove_char count_if
source_fails = refl

translation_completeness_gate_iff_example :
    ((translation_completeness_gate translations).passed ≡ true) ↔ (
      (10 * translations.failed_count ≤ 3 * total_of translations)
      × (10 * marked translations.translations ≤ 3 * total_of translations)
      × NoLeaks translations.translations)
translation_completeness_gate_iff_example = translation_completeness_gate_iff translations

abbrev same : Text → Text
same t = t

abbrev terms : GlossaryOutput
terms = record {
  total_terms = 1;
  needs_review_count = 0;
  entries =
      record {
        term = codes "dharma";
        original_script = codes "धर्म";
        definition = codes "what holds";
      }
      ∷ [];
}

terms_pass : (glossary_integrity_gate same terms).passed ≡ true
unfolding glossary_integrity_gate list_eq contains starts_with count_if
terms_pass = refl

no_terms_fail :
    (glossary_integrity_gate same (record terms { entries = [] })).failures ≡ no_entries ∷ []
unfolding glossary_integrity_gate
no_terms_fail = refl

abbrev manuscript : AssembleOutput
manuscript = record {
  title = codes "Gita";
  chapters = 1 ∷ 2 ∷ [];
  table_of_contents = codes "Grief" ∷ codes " Reason " ∷ [];
}

manuscript_passes : (document_structure_gate manuscript).passed ≡ true
unfolding document_structure_gate is_blank is_space list_eq strip rstrip lstrip
manuscript_passes = refl

-- No title, chapters out of order, a short table of contents with a trivial entry.
abbrev broken : AssembleOutput
broken = record { title = codes "  "; chapters = 1 ∷ 3 ∷ []; table_of_contents = codes " ab " ∷ [] }

broken_fails :
    (document_structure_gate broken).failures
    ≡ short_toc 1 2 ∷ no_title ∷ not_sequential (1 ∷ 3 ∷ []) ∷ empty_toc_entries (1 ∷ []) ∷ []
unfolding document_structure_gate is_blank is_space list_eq strip rstrip lstrip
broken_fails = refl

document_structure_gate_iff_example :
    ((document_structure_gate manuscript).passed ≡ true) ↔ IsWellFormed manuscript
document_structure_gate_iff_example = document_structure_gate_iff manuscript

-- The files of a disk that holds the PDF.
abbrev on_disk : Text → Bool
on_disk uri = list_eq uri (codes "/out/book.pdf")

abbrev behind_scheme : Text → Text
behind_scheme uri = drop 7 uri

abbrev exports : List ExportArtifact
exports =
    record { format = "pdf"; blob_uri = codes "file:///out/book.pdf"; file_size_bytes = 2048 }
    ∷ record { format = "epub"; blob_uri = []; file_size_bytes = 1024 }
    ∷ []

exports_pass : (artifact_availability_gate on_disk behind_scheme exports).passed ≡ true
unfolding artifact_availability_gate uri_is_valid starts_with list_eq
exports_pass = refl

abbrev audio : AudiobookOutput
audio = record {
  chapters = record { chapter_number = 1; duration_ms = 60000; file_size_bytes = 4096 } ∷ [];
  total_duration_ms = 60000;
}

audio_passes : (audio_quality_gate audio).passed ≡ true
unfolding audio_quality_gate
audio_passes = refl
