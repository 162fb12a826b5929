-- ===== src/Workspace/License.antt =====
-- What the calls of src/transpose/pipeline/workspace.py make of the license in `metadata.json`.
use transpose.Prelude.{
  ◌≡◌, ◌⊎◌, inl, inr, refl, ap, ◌∙◌, String, Bool, true, false, Option, none, some, List, [], ◌∷◌,
  arith, str_eq, eq_iff, Bool-cases, if◌then◌else◌,
}
use transpose.Text.{Text}
use transpose.Exec.{Outcome, ok, raised}
use transpose.Workspace.{
  Json, text, plain, object, Fields, empty, entry, get, set, merge_value, deep_merge, MetadataError,
  rights_unknown_violation, attribute_error, is_rights_unknown, upload, write_metadata, existing,
  is_some_json, update_metadata, MetadataCall, write, update, metadata_call,
}

get-set :
    (key k : String) (value : Json) (f : Fields)
    → str_eq k key ≡ false
    → get key (set k value f) ≡ get key f
unfolding get set
get-set key k value empty h = rw h refl
get-set key k value (entry j v rest) h = elim (Bool-cases (str_eq j k)) [
  | inl e ↦
      let same : str_eq j key ≡ false =
        ground (arith, e, h, eq_iff j k, eq_iff k key, eq_iff j key) in
      rw (e, same) refl
  | inr e ↦ rw e (ap (λ o. if str_eq j key then some v else o) (get-set key k value rest h))
]

get-deep_merge :
    (key : String) (base updates : Fields)
    → get key updates ≡ none
    → get key (deep_merge base updates) ≡ get key base
unfolding get deep_merge
get-deep_merge key base empty h = refl
get-deep_merge key base (entry k v rest) h = elim (Bool-cases (str_eq k key)) [
  | inl e ↦ let bad : some v ≡ none = (rw e at h) in cc
  | inr e ↦
      let more : get key rest ≡ none = (rw e at h) in
      get-deep_merge key (set k (merge_value (get k base) v) base) rest more
      ∙ get-set key k (merge_value (get k base) v) base e
]

-- `license.status` is "rights-unknown".
abbrev pub IsRightsUnknown : Fields → Type 0
IsRightsUnknown f =
    (g : Fields) × (get "license" f ≡ some (object g)) × (is_rights_unknown (get "status" g) ≡ true)

-- Nobody has claimed another license.
abbrev pub Unclaimed : Option Fields → Type 0
Unclaimed none = Unit {0}
Unclaimed (some f) = (get "license" f ≡ none) ⊎ IsRightsUnknown f

Unclaimed-upload :
    (uploads : Bool) (f : Fields) (blob : Option Fields)
    → Unclaimed (some f)
    → Unclaimed blob
    → Unclaimed (upload uploads f blob).1
Unclaimed-upload true f blob h k = h
Unclaimed-upload false f blob h k = k

-- The result of `write_metadata`, by the license that it is given.
Unclaimed-guarded :
    (uploads : Bool) (f : Fields) (blob : Option Fields) (o : Option Json)
    → get "license" f ≡ o
    → Unclaimed blob
    → Unclaimed
        (elim o as (λ _. Outcome MetadataError (Unit {0}) × Option Fields) [
          | none ↦ (raised rights_unknown_violation, blob)
          | some (text s) ↦ (raised attribute_error, blob)
          | some (plain s) ↦ (raised attribute_error, blob)
          | some (object g) ↦
              if is_rights_unknown (get "status" g)
              then upload uploads f blob
              else (raised rights_unknown_violation, blob)
        ]).1
Unclaimed-guarded uploads f blob none e h = h
Unclaimed-guarded uploads f blob (some (text s)) e h = h
Unclaimed-guarded uploads f blob (some (plain s)) e h = h
Unclaimed-guarded uploads f blob (some (object g)) e h =
    elim (Bool-cases (is_rights_unknown (get "status" g))) [
      | inl k ↦ rw k (Unclaimed-upload uploads f blob (inr (g, e, k)) h)
      | inr k ↦ rw k h
    ]

Unclaimed-write :
    (uploads : Bool) (f : Fields) (blob : Option Fields)
    → Unclaimed blob
    → Unclaimed (write_metadata uploads f blob).1
unfolding write_metadata
Unclaimed-write uploads f blob h = Unclaimed-guarded uploads f blob (get "license" f) refl h

-- An update takes the license over from what it reads.
license-update :
    (base updates : Fields) (now : Text)
    → get "license" updates ≡ none
    → get "license" (set "updated_at" (text now) (deep_merge base updates)) ≡ get "license" base
license-update base updates now h =
    get-set "license" "updated_at" (text now) (deep_merge base updates) refl
    ∙ get-deep_merge "license" base updates h

Unclaimed-existing :
    (downloads : Bool) (blob : Option Fields)
    → Unclaimed blob
    → Unclaimed (some (existing downloads blob))
unfolding get
Unclaimed-existing downloads none h = inl refl
Unclaimed-existing true (some f) h = h
Unclaimed-existing false (some f) h = inl refl

Unclaimed-same :
    (f g : Fields) → get "license" f ≡ get "license" g → Unclaimed (some g) → Unclaimed (some f)
Unclaimed-same f g e h = rw e h

is_some_json-none : (o : Option Json) → is_some_json o ≡ false → o ≡ none
is_some_json-none none h = refl
is_some_json-none (some v) h = cc

Unclaimed-update :
    (downloads uploads : Bool) (now : Text) (updates : Fields) (blob : Option Fields)
    → Unclaimed blob
    → Unclaimed (update_metadata downloads uploads now updates blob).1
unfolding update_metadata
Unclaimed-update downloads uploads now updates blob h =
    elim (Bool-cases (is_some_json (get "license" updates))) [
      | inl e ↦ rw e h
      | inr e ↦ rw e (
          Unclaimed-upload uploads _ blob
            (Unclaimed-same
              (set "updated_at" (text now) (deep_merge (existing downloads blob) updates))
              (existing downloads blob)
              (license-update (existing downloads blob) updates now
                (is_some_json-none (get "license" updates) e))
              (Unclaimed-existing downloads blob h))
            h)
    ]

-- The blob after a sequence of calls.
abbrev pub after_calls : List MetadataCall → Option Fields → Option Fields
after_calls [] blob = blob
after_calls (c ∷ cs) blob = after_calls cs (metadata_call c blob).1

-- However the calls of the pipeline follow each other, and whatever the blob store does, no call ever gives a book's
-- metadata.json a license other than rights-unknown: in the end it has that status or no license at all, if it was so
-- at the start or there was no such blob.
pub after_calls-Unclaimed :
    (cs : List MetadataCall) (blob : Option Fields)
    → Unclaimed blob
    → Unclaimed (after_calls cs blob)
unfolding metadata_call
after_calls-Unclaimed [] blob h = h
after_calls-Unclaimed (write uploads f ∷ cs) blob h =
    after_calls-Unclaimed cs (write_metadata uploads f blob).1 (Unclaimed-write uploads f blob h)
after_calls-Unclaimed (update downloads uploads now updates ∷ cs) blob h =
    after_calls-Unclaimed cs (update_metadata downloads uploads now updates blob).1
      (Unclaimed-update downloads uploads now updates blob h)

-- If the updates hold no license and the upload succeeds, an update leaves the license of metadata.json as it was if
-- the download succeeds, and takes it away if the download fails.
pub update_metadata-license :
    (downloads : Bool) (now : Text) (updates f : Fields)
    → get "license" updates ≡ none
    → (g : Fields) × (update_metadata downloads true now updates (some f) ≡ (ok tt, some g))
      × (get "license" g ≡ (if downloads then get "license" f else none))
unfolding update_metadata
update_metadata-license true now updates f h =
    (set "updated_at" (text now) (deep_merge f updates), rw h refl, license-update f updates now h)
update_metadata-license false now updates f h = (
  set "updated_at" (text now) (deep_merge empty updates),
  rw h refl,
  license-update empty updates now h ∙ unfold get in refl,
)
