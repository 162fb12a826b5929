-- ===== src/Workspace/Schema.antt =====
-- `validate_metadata` and `is_eligible_for_promotion` of src/transpose/workspace/metadata_schema.py. The reading of dates
-- and the two patterns of addresses are a record of functions. A field has one violation, which is its name: the
-- messages for a missing and for an invalid value are not told apart.
use transpose.Prelude.{
  String, Bool, true, false, not, ◌&&◌, ◌||◌, Option, none, some, List, [], ◌∷◌, ◌++◌, list_eq,
  ◌==◌, if◌then◌else◌,
}
use transpose.Text.{Text, codes, is_blank, starts_with}
use transpose.Transcript.Stamps.{is_digit}
use transpose.Workspace.{Json, text, plain, object, Fields, get}
use transpose.Workspace.Build.{is_license_status}

-- `datetime.strptime` with one of the formats or `fromisoformat` succeeds; `_SOURCE_PDF_SAS_URL_RE` and
-- `_TRANSLATED_PDF_SAS_URL_RE` match.
pub record Patterns : Type 0 where
  pub is_date : Text → Bool
  pub source_pdf_sas_url : Text → Bool
  pub translated_pdf_sas_url : Text → Bool

-- A text that is not blank and passes a test.
unfoldable pub is_filled : (Text → Bool) → Option Json → Bool
unfolding is_blank
is_filled p none = false
is_filled p (some (text t)) = not (is_blank t) && p t
is_filled p (some (plain t)) = false
is_filled p (some (object f)) = false

abbrev pub any_text : Text → Bool
any_text t = true

unfoldable pub all_digits : Text → Bool
all_digits [] = true
all_digits (c ∷ s) = is_digit c && all_digits s

-- A number of JSON that is an `int`, and no less than 1. `True` is one.
unfoldable pub is_positive_int : Text → Bool
unfolding list_eq all_digits
is_positive_int [] = false
is_positive_int (c ∷ s) =
    list_eq (c ∷ s) (codes "true") || (not (c == b'0') && (is_digit c && all_digits s))

unfoldable pub is_page_count : Option Json → Bool
unfolding is_positive_int
is_page_count none = false
is_page_count (some (text t)) = false
is_page_count (some (plain t)) = is_positive_int t
is_page_count (some (object f)) = false

-- `_get_nested`, from a value on.
unfoldable pub nested : Option Json → List String → Option Json
unfolding get
nested node [] = node
nested none (key ∷ keys) = none
nested (some (text t)) (key ∷ keys) = none
nested (some (plain t)) (key ∷ keys) = none
nested (some (object f)) (key ∷ keys) = nested (get key f) keys

-- Whether the status is in `LICENSE_STATUS_ENUM`; `none` is the `TypeError` of a value that cannot be hashed.
unfoldable pub is_in_enum : Option Json → Option Bool
unfolding is_license_status starts_with
is_in_enum none = some false
is_in_enum (some (text t)) = some (is_license_status t)
is_in_enum (some (plain t)) = if starts_with (codes "[") t then none else some false
is_in_enum (some (object f)) = none

abbrev pub require : String → Bool → List String
require field true = []
require field false = field ∷ []

unfoldable pub string_violations : List String → Fields → List String
unfolding is_filled get
string_violations [] metadata = []
string_violations (field ∷ fields) metadata =
    require field (is_filled any_text (get field metadata)) ++ string_violations fields metadata

abbrev pub string_fields : List String
string_fields =
    "title" ∷ "author" ∷ "source_language" ∷ "target_language" ∷ "slug" ∷ "landing_page_url" ∷ []

unfoldable pub share_violations : Patterns → Option Json → List String
unfolding is_filled get
share_violations patterns none = "share" ∷ []
share_violations patterns (some (text t)) = "share" ∷ []
share_violations patterns (some (plain t)) = "share" ∷ []
share_violations patterns (some (object f)) =
    require "share.source_pdf_sas_url"
      (is_filled patterns.source_pdf_sas_url (get "source_pdf_sas_url" f))
    ++ (require "share.translated_pdf_sas_url"
          (is_filled patterns.translated_pdf_sas_url (get "translated_pdf_sas_url" f))
        ++ (require "share.sas_expiry" (is_filled patterns.is_date (get "sas_expiry" f))
            ++ require "share.generated_at" (is_filled patterns.is_date (get "generated_at" f))))

abbrev pub with_status : List String → Option Bool → List String → Option (List String)
with_status errors none more = none
with_status errors (some b) more = some (errors ++ (require "license.status" b ++ more))

-- `validate_metadata`
unfoldable pub validate_schema : Patterns → Fields → Option (List String)
unfolding string_violations is_page_count nested is_in_enum share_violations is_filled get
validate_schema patterns metadata =
    with_status
      (string_violations string_fields metadata
        ++ require "page_count" (is_page_count (get "page_count" metadata)))
      (is_in_enum (nested (some (object metadata)) ("license" ∷ "status" ∷ [])))
      (require "provenance.source.acquired_at" (
          is_filled patterns.is_date
            (nested (some (object metadata)) ("provenance" ∷ "source" ∷ "acquired_at" ∷ [])))
        ++ share_violations patterns (get "share" metadata))

unfoldable pub is_eligible_for_promotion : Text → Bool
unfolding list_eq
is_eligible_for_promotion license_status =
    list_eq license_status (codes "verified-public-domain")
    || list_eq license_status (codes "rights-cleared")
