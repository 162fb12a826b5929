-- ===== src/Workspace/Accepted.antt =====
-- What src/transpose/workspace/metadata_schema.py accepts, beside `validate_metadata` of
-- src/transpose/pipeline/workspace.py.
use transpose.Prelude.{
  ◌≡◌, refl, String, Bool, true, false, Option, none, some, List, [], ◌∷◌, ◌++◌, list_eq, drop,
  arith, if◌then◌else◌,
}
use transpose.Text.{Text, codes, is_blank, starts_with}
use transpose.Workspace.{Json, text, plain, object, Fields, get}
use transpose.Workspace.Build.{
  Violation, only_zeros, equals_zero, is_missing, missing_fields, mandatory_fields,
  validate_metadata, license_violation, status_violation, is_license_status,
}
use transpose.Workspace.Validated.{missing_iff}
use transpose.Workspace.Schema.{
  Patterns, is_filled, any_text, is_page_count, is_positive_int, nested, is_in_enum, require,
  string_violations, string_fields, with_status, validate_schema,
}

nothing_appended : (xs ys : List String) → xs ++ ys ≡ [] → (xs ≡ []) × (ys ≡ [])
nothing_appended [] ys h = (refl, h)
nothing_appended (x ∷ xs) ys h = cc

required : (field : String) (b : Bool) → require field b ≡ [] → b ≡ true
required field true h = refl
required field false h = cc

is_missing-is_filled : (v : Option Json) → is_filled any_text v ≡ true → is_missing v ≡ false
unfolding is_filled is_missing is_blank
is_missing-is_filled none h = cc
is_missing-is_filled (some (text [])) h = cc
is_missing-is_filled (some (text (c ∷ t))) h = refl
is_missing-is_filled (some (plain t)) h = cc
is_missing-is_filled (some (object f)) h = cc

is_missing-is_positive_int :
    (t : Text) → is_positive_int t ≡ true → is_missing (some (plain t)) ≡ false
unfolding is_positive_int is_missing equals_zero only_zeros list_eq
is_missing-is_positive_int [] h = cc
is_missing-is_positive_int (c ∷ s) h = ground arith

is_missing-is_page_count : (v : Option Json) → is_page_count v ≡ true → is_missing v ≡ false
unfolding is_page_count
is_missing-is_page_count none h = cc
is_missing-is_page_count (some (text t)) h = cc
is_missing-is_page_count (some (plain t)) h = is_missing-is_positive_int t h
is_missing-is_page_count (some (object f)) h = cc

status-if :
    (b : Bool) (vs : List Violation) → some b ≡ some true → some (if b then [] else vs) ≡ some []
status-if true vs h = refl
status-if false vs h = cc

unhashed-if :
    (b : Bool) (v : Option (List Violation))
    → (if b then none else some false) ≡ some true
    → (if b then none else v) ≡ some []
unhashed-if true v h = cc
unhashed-if false v h = cc

status_violation-is_in_enum :
    (v : Option Json) → is_in_enum v ≡ some true → status_violation v ≡ some []
unfolding is_in_enum status_violation
status_violation-is_in_enum none h = cc
status_violation-is_in_enum (some (text t)) h = status-if (is_license_status t) _ h
status_violation-is_in_enum (some (plain t)) h = unhashed-if (starts_with (codes "[") t) _ h
status_violation-is_in_enum (some (object f)) h = cc

license_violation-is_in_enum :
    (v : Option Json)
    → is_in_enum (nested v ("status" ∷ [])) ≡ some true
    → license_violation v ≡ some []
unfolding nested license_violation is_in_enum
license_violation-is_in_enum none h = cc
license_violation-is_in_enum (some (text t)) h = cc
license_violation-is_in_enum (some (plain t)) h = cc
license_violation-is_in_enum (some (object f)) h = status_violation-is_in_enum (get "status" f) h

-- What is behind an empty list of violations.
with_status_inv :
    (errors : List String) (status : Option Bool) (more : List String)
    → with_status errors status more ≡ some []
    → (errors ≡ []) × (status ≡ some true)
with_status_inv errors none more h = cc
with_status_inv [] (some true) more h = (refl, refl)
with_status_inv [] (some false) more h = cc
with_status_inv (e ∷ errors) (some b) more h = cc

is_missing-strings :
    (field : String) (fields : List String) (metadata : Fields)
    → string_violations (field ∷ fields) metadata ≡ []
    → (is_missing (get field metadata) ≡ false) × (string_violations fields metadata ≡ [])
unfolding string_violations
is_missing-strings field fields metadata h =
    let (a, b) = nothing_appended (require field (is_filled any_text (get field metadata))) _ h in
    (is_missing-is_filled (get field metadata) (required field _ a), b)

-- With an identifier, metadata that the schema accepts, whatever the patterns and the reading of dates are, is valid for
-- the workspace as well.
pub validate_metadata-validate_schema :
    (patterns : Patterns) (metadata : Fields)
    → validate_schema patterns metadata ≡ some []
    → is_missing (get "book_id" metadata) ≡ false
    → validate_metadata metadata ≡ some []
unfolding validate_schema validate_metadata nested
validate_metadata-validate_schema patterns metadata h k =
    let m : Fields = metadata in
    let (strings, status) =
      with_status_inv _ (is_in_enum (nested (some (object m)) ("license" ∷ "status" ∷ []))) _ h in
    let (fields, page) = nothing_appended (string_violations string_fields m) _ strings in
    let (t, fields1) = is_missing-strings "title" (drop 1 string_fields) m fields in
    let (a, fields2) = is_missing-strings "author" (drop 2 string_fields) m fields1 in
    let (s, fields3) = is_missing-strings "source_language" (drop 3 string_fields) m fields2 in
    let (l, fields4) = is_missing-strings "target_language" (drop 4 string_fields) m fields3 in
    let (u, _) = is_missing-strings "slug" (drop 5 string_fields) m fields4 in
    let p = is_missing-is_page_count (get "page_count" m) (required "page_count" _ page) in
    let filled : missing_fields m mandatory_fields ≡ [] =
      (missing_iff "title" m (drop 1 mandatory_fields) _ refl).1 (
        t,
        (missing_iff "author" m (drop 2 mandatory_fields) _ refl).1 (
          a,
          (missing_iff "source_language" m (drop 3 mandatory_fields) _ refl).1 (
            s,
            (missing_iff "target_language" m (drop 4 mandatory_fields) _ refl).1 (
              l,
              (missing_iff "page_count" m (drop 5 mandatory_fields) _ refl).1 (
                p,
                (missing_iff "slug" m (drop 6 mandatory_fields) _ refl).1
                    (u, (missing_iff "book_id" m [] _ refl).1 (k, unfold missing_fields in refl)),
              ),
            ),
          ),
        ),
      ) in
    rw filled (rw (license_violation-is_in_enum (get "license" m) status) refl)
