-- ===== src/Workspace/SchemaTests.antt =====
-- Metadata by the rules of src/transpose/workspace/metadata_schema.py.
use transpose.Prelude.{◌≡◌, refl, false, some, [], ◌∷◌, String}
use transpose.Text.{Text, codes, is_blank, is_space, contains}
use transpose.Workspace.{Fields, empty, entry, text, plain, object, get}
use transpose.Workspace.Build.{validate_metadata, is_license_status, is_missing}
use transpose.Workspace.Schema.{Patterns, is_page_count, validate_schema, is_eligible_for_promotion}
use transpose.Workspace.Accepted.{validate_metadata-validate_schema}

-- A date has a T, and an address is that of its file.
abbrev patterns : Patterns
patterns = record {
  is_date = contains (codes "T");
  source_pdf_sas_url = contains (codes "/input/source.pdf?");
  translated_pdf_sas_url = contains (codes "/output/translated.pdf?");
}

abbrev dated : String → Fields → Fields
dated key rest = entry key (text (codes "2026-05-20T22:52:32Z")) rest

abbrev with_license : Text → Fields
with_license status = entry "title" (text (codes "Katha")) (
    entry "author" (text (codes "A")) (
      entry "source_language" (text (codes "hindi")) (
        entry "target_language" (text (codes "english")) (
          entry "slug" (text (codes "katha")) (
            entry "book_id" (text (codes "1")) (
              entry "landing_page_url" (text (codes "https://page")) (
                entry "page_count" (plain (codes "12")) (
                  entry "license" (object (entry "status" (text status) empty)) (
                    entry "provenance"
                      (object (entry "source" (object (dated "acquired_at" empty)) empty))
                      (entry "share"
                        (object (
                          entry "source_pdf_sas_url" (text (codes "https://a/input/source.pdf?s")) (
                            entry "translated_pdf_sas_url"
                              (text (codes "https://a/output/translated.pdf?s"))
                              (dated "sas_expiry" (dated "generated_at" empty)))))
                        empty))))))))))

accepted : validate_schema patterns (with_license (codes "rights-unknown")) ≡ some []
unfolding validate_schema is_license_status is_blank contains is_space
accepted = refl

rejected : validate_schema patterns (with_license (codes "public")) ≡ some ("license.status" ∷ [])
unfolding validate_schema is_license_status is_blank contains is_space
rejected = refl

pages_of_zero : is_page_count (some (plain (codes "0"))) ≡ false
unfolding is_page_count
pages_of_zero = refl

not_promoted : is_eligible_for_promotion (codes "claimed-public-domain") ≡ false
unfolding is_eligible_for_promotion
not_promoted = refl

validate_metadata-validate_schema_example :
    validate_metadata (with_license (codes "rights-unknown")) ≡ some []
validate_metadata-validate_schema_example =
    validate_metadata-validate_schema patterns (with_license (codes "rights-unknown")) accepted
      (unfold get is_missing in refl)
