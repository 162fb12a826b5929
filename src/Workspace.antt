-- ===== src/Workspace.antt =====
-- The metadata of a book's workspace: `write_metadata`, `update_metadata` and `_deep_merge` of
-- src/transpose/pipeline/workspace.py, on the blob `metadata.json`. The blob store is an argument: whether the download
-- gives the blob that is there, and whether the upload succeeds.
pub mod License
pub mod Slug
pub mod Kebab
pub mod Build
pub mod Publish
pub mod Shared
pub mod Validated
pub mod Schema
pub mod Accepted
pub mod Landing
pub mod Markup
pub mod Page
mod Tests
mod SchemaTests
mod LandingTests
use transpose.Text.{Text, codes}
use transpose.Prelude.{
  list_eq, String, Bool, true, false, Option, none, some, str_eq, if◌then◌else◌,
}
use transpose.Exec.{Outcome, ok, raised}

-- The values of JSON. A value that is neither a text nor an object is kept as it is written: a number, `null` or
-- a list.
mutual
  pub data Json : Type 0 where
    text : Text → Json
    plain : Text → Json
    object : Fields → Json

  -- A `dict`, by its items in the order in which they were added.
  pub data Fields : Type 0 where
    empty : Fields
    entry : String → Json → Fields → Fields

-- `d.get(key)`
unfoldable pub get : String → Fields → Option Json
get key empty = none
get key (entry k v rest) = if str_eq k key then some v else get key rest

-- `d[key] = value`
unfoldable pub set : String → Json → Fields → Fields
set key value empty = entry key value empty
set key value (entry k v rest) =
    let more = set key value rest in if str_eq k key then entry k value rest else entry k v more

-- `_deep_merge`, and what it makes of the old and the new value of one key.
unfoldable mutual
  pub merge_value : Option Json → Json → Json
  merge_value old (text s) = text s
  merge_value old (plain s) = plain s
  merge_value none (object g) = object g
  merge_value (some (text s)) (object g) = object g
  merge_value (some (plain s)) (object g) = object g
  merge_value (some (object f)) (object g) = object (deep_merge f g)

  pub deep_merge : Fields → Fields → Fields
  deep_merge base empty = base
  deep_merge base (entry key value updates) =
      deep_merge (set key (merge_value (get key base) value) base) updates

pub data MetadataError : Type 0 where
  rights_unknown_violation : MetadataError
  pipeline_license_upgrade_guard : MetadataError
  attribute_error : MetadataError
  upload_error : MetadataError

-- `RIGHTS_UNKNOWN`
abbrev pub rights_unknown : Text
rights_unknown = codes "rights-unknown"

-- `json.get("status", "") != RIGHTS_UNKNOWN`, negated
unfoldable pub is_rights_unknown : Option Json → Bool
unfolding list_eq
is_rights_unknown none = false
is_rights_unknown (some (text s)) = list_eq s rights_unknown
is_rights_unknown (some (plain s)) = false
is_rights_unknown (some (object f)) = false

abbrev pub upload : Bool → Fields → Option Fields → Outcome MetadataError (Unit {0}) × Option Fields
upload true metadata blob = (ok tt, some metadata)
upload false metadata blob = (raised upload_error, blob)

-- `metadata_dict.get("license", {})` that is no `dict` has no `get`.
unfoldable pub write_metadata :
    Bool → Fields → Option Fields → Outcome MetadataError (Unit {0}) × Option Fields
unfolding get is_rights_unknown
write_metadata uploads metadata_dict blob = elim (get "license" metadata_dict) [
  | none ↦ (raised rights_unknown_violation, blob)
  | some (text s) ↦ (raised attribute_error, blob)
  | some (plain s) ↦ (raised attribute_error, blob)
  | some (object f) ↦
      if is_rights_unknown (get "status" f)
      then upload uploads metadata_dict blob
      else (raised rights_unknown_violation, blob)
]

-- What the download gives: an error, of whatever kind, and a blob that is not there give no fields.
abbrev pub existing : Bool → Option Fields → Fields
existing downloads none = empty
existing true (some f) = f
existing false (some f) = empty

abbrev pub is_some_json : Option Json → Bool
is_some_json none = false
is_some_json (some _) = true

unfoldable pub update_metadata :
    Bool → Bool → Text → Fields → Option Fields → Outcome MetadataError (Unit {0}) × Option Fields
unfolding get set deep_merge
update_metadata downloads uploads now updates blob =
    if is_some_json (get "license" updates)
    then (raised pipeline_license_upgrade_guard, blob)
    else upload uploads (set "updated_at" (text now) (deep_merge (existing downloads blob) updates))
        blob

-- A call of the pipeline, with what the blob store does.
pub data MetadataCall : Type 0 where
  write : Bool → Fields → MetadataCall
  update : Bool → Bool → Text → Fields → MetadataCall

unfoldable pub metadata_call :
    MetadataCall → Option Fields → Outcome MetadataError (Unit {0}) × Option Fields
unfolding write_metadata update_metadata
metadata_call (write uploads metadata_dict) blob = write_metadata uploads metadata_dict blob
metadata_call (update downloads uploads now updates) blob =
    update_metadata downloads uploads now updates blob
