-- ===== src/Workspace/Build.antt =====
-- `build_metadata` and `validate_metadata` of src/transpose/pipeline/workspace.py.
use transpose.Prelude.{
  ◌==◌, ◌&&◌, ℕ, String, Bool, true, false, ◌||◌, Option, none, some, List, [], ◌∷◌, ◌++◌, list_eq,
  if◌then◌else◌,
}
use transpose.Text.{Text, codes, is_empty, starts_with}
use transpose.Transcript.Stamps.{decimal}
use transpose.Workspace.{Json, text, plain, object, Fields, empty, entry, get, rights_unknown}
use transpose.Workspace.Slug.{short_id}

-- The keyword arguments; `book_id` is its text.
pub record BuildInput : Type 0 where
  pub book_id : Text
  pub slug : Text
  pub title : Text
  pub author : Text
  pub source_language : Text
  pub target_language : Text
  pub page_count : ℕ
  pub source_url : Option Text
  pub source_edition : Option Text
  pub source_acquired_at : Option Text
  pub source_notes : Option Text
  pub translator_note : Option Text
  pub cover_image_blob_url : Option Text
  pub pipeline_version : Text
  pub created_at : Option Text

abbrev pub null : Json
null = plain (codes "null")

abbrev pub number : ℕ → Json
number n = plain (decimal n)

abbrev pub optional : Option Text → Json
optional none = null
optional (some t) = text t

-- `a or b`, of texts that may be `None`.
abbrev pub or_text : Option Text → Text → Text
or_text none d = d
or_text (some []) d = d
or_text (some (c ∷ t)) d = c ∷ t

-- `TRANSPOSE_TRANSLATOR_NOTE` is given, "" if it is not set.
abbrev pub default_note : BuildInput → Text
default_note b =
    b.title
    ++ (codes " by "
        ++ (b.author
            ++ (codes ", translated from "
                ++ (b.source_language
                    ++ (codes " to "
                        ++ (b.target_language
                            ++ (codes " by Transpose ("
                                ++ (decimal b.page_count ++ codes " pages)."))))))))

unfoldable pub effective_note : Text → BuildInput → Text
unfolding decimal
effective_note env_note b = or_text b.translator_note (or_text (some env_note) (default_note b))

abbrev pub empty_share : Fields
empty_share = entry "source_pdf_sas_url" null (
    entry "translated_pdf_sas_url" null (entry "sas_expiry" null (entry "generated_at" null empty)))

unfoldable pub build_metadata : Text → Text → BuildInput → Fields
unfolding effective_note decimal
build_metadata now_iso env_note b =
    entry "workspace_id" (text (codes "ws-" ++ short_id b.book_id)) (
      entry "book_id" (text b.book_id) (
        entry "slug" (text b.slug) (
          entry "title" (text b.title) (
            entry "author" (text b.author) (
              entry "source_language" (text b.source_language) (
                entry "target_language" (text b.target_language) (
                  entry "page_count" (number b.page_count) (
                    entry "translator_note" (text (effective_note env_note b)) (
                      entry "cover_image_blob_url" (optional b.cover_image_blob_url) (
                        entry "landing_page_url" null (
                          entry "share" (object empty_share) (
                            entry "license"
                              (object
                                (entry "status" (text rights_unknown) (entry "notes" null empty)))
                              (entry "provenance"
                                (object (
                                  entry "source"
                                    (object (
                                      entry "url" (optional b.source_url) (
                                        entry "edition" (optional b.source_edition) (
                                          entry "acquired_at"
                                            (text (or_text b.source_acquired_at now_iso))
                                            (entry "notes" (optional b.source_notes) empty)))))
                                    empty))
                                (entry "pipeline_version" (text b.pipeline_version) (
                                  entry "created_at" (text (or_text b.created_at now_iso)) (
                                    entry "updated_at" (text now_iso) (
                                      entry "published_at" null (
                                        entry "artifact_manifest" (plain (codes "[]"))
                                          empty))))))))))))))))))

pub data Violation : Type 0 where
  missing_field : String → Violation
  invalid_status : Json → Violation

-- Whether a number has only zeros before its exponent: `seen` says whether there was one.
unfoldable pub only_zeros : Bool → Text → Bool
only_zeros seen [] = seen
only_zeros seen (c ∷ s) =
    let digits = only_zeros true s in
    let fraction = only_zeros seen s in
    if c == b'0' then digits else if c == b'.' then fraction else seen && (c == b'e' || c == b'E')

abbrev pub without_sign : Text → Text
without_sign [] = []
without_sign (c ∷ s) = if c == b'-' then s else c ∷ s

-- `value == 0` is true of `False`, of 0 and of 0.0 with either sign. A number stands as `json.dumps` writes it, so none of
-- them is so small that it would be read as 0.
unfoldable pub equals_zero : Text → Bool
unfolding list_eq only_zeros
equals_zero t = list_eq t (codes "false") || only_zeros false (without_sign t)

-- `value is None or value == "" or value == 0`
unfoldable pub is_missing : Option Json → Bool
unfolding list_eq equals_zero
is_missing none = true
is_missing (some (text t)) = is_empty t
is_missing (some (plain t)) = list_eq t (codes "null") || equals_zero t
is_missing (some (object f)) = false

unfoldable pub missing_fields : Fields → List String → List Violation
unfolding is_missing get
missing_fields metadata [] = []
missing_fields metadata (key ∷ keys) =
    let rest = missing_fields metadata keys in
    if is_missing (get key metadata) then missing_field key ∷ rest else rest

abbrev pub mandatory_fields : List String
mandatory_fields =
    "title" ∷ "author" ∷ "source_language" ∷ "target_language" ∷ "page_count" ∷ "slug" ∷ "book_id"
    ∷ []

-- `_LICENSE_STATUS_ENUM`
unfoldable pub is_license_status : Text → Bool
unfolding list_eq
is_license_status t =
    list_eq t rights_unknown
    || (list_eq t (codes "claimed-public-domain")
        || (list_eq t (codes "verified-public-domain") || list_eq t (codes "rights-cleared")))

-- The finding on the status; `none` is the `TypeError` of a status that cannot be hashed.
unfoldable pub status_violation : Option Json → Option (List Violation)
unfolding is_license_status starts_with
status_violation none = some (invalid_status (text []) ∷ [])
status_violation (some (text t)) =
    some (if is_license_status t then [] else invalid_status (text t) ∷ [])
status_violation (some (plain t)) =
    if starts_with (codes "[") t then none else some (invalid_status (plain t) ∷ [])
status_violation (some (object f)) = none

-- `metadata.get("license", {}).get("status", "")`; a license that is no `dict` has no `get`.
unfoldable pub license_violation : Option Json → Option (List Violation)
unfolding status_violation get
license_violation none = status_violation none
license_violation (some (text t)) = none
license_violation (some (plain t)) = none
license_violation (some (object f)) = status_violation (get "status" f)

abbrev pub append_to : List Violation → Option (List Violation) → Option (List Violation)
append_to errors none = none
append_to errors (some more) = some (errors ++ more)

-- `validate_metadata`
unfoldable pub validate_metadata : Fields → Option (List Violation)
unfolding missing_fields license_violation
validate_metadata metadata =
    append_to (missing_fields metadata mandatory_fields)
      (license_violation (get "license" metadata))
