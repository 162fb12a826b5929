-- ===== src/Workspace/Validated.antt =====
-- When the metadata of src/transpose/pipeline/workspace.py is valid as it is built.
use transpose.Prelude.{
  Bool-cases, inl, inr, not, ◌&&◌, ◌≤◌, ℕ, zero, suc, ◌+◌, ◌/◌, ◌%◌, ◌≡◌, ◌≢◌, ◌↔◌, refl, String,
  Bool, true, false, some, List, [], ◌∷◌, ◌++◌, drop, ltb, ◌==◌, arith, list_eq, if◌then◌else◌,
}
use transpose.Text.{Text, codes, is_empty}
use transpose.Transcript.Stamps.{decimal_from, decimal, is_digit}
use transpose.Workspace.{Fields, get}
use transpose.Workspace.Build.{
  BuildInput, build_metadata, number, only_zeros, equals_zero, is_missing, Violation, append_to,
  mandatory_fields, missing_fields, validate_metadata,
}

abbrev starts_digit : Text → Bool
starts_digit [] = true
starts_digit (c ∷ s) = is_digit c

starts_digit-append :
    (s : Text) (d : ℕ)
    → starts_digit s ≡ true
    → is_digit d ≡ true
    → starts_digit (s ++ d ∷ []) ≡ true
starts_digit-append [] d h k = k
starts_digit-append (c ∷ s) d h k = h

starts_digit-if :
    (b : Bool) (s t : Text)
    → (b ≡ true → starts_digit s ≡ true)
    → starts_digit t ≡ true
    → starts_digit (if b then s else t) ≡ true
starts_digit-if true s t f h = f refl
starts_digit-if false s t f h = h

starts_digit-decimal_from : (k n : ℕ) → starts_digit (decimal_from k n) ≡ true
unfolding decimal_from
starts_digit-decimal_from zero n = refl
starts_digit-decimal_from (suc k) n =
    starts_digit-if (ltb n 10) ((48 + n) ∷ []) (decimal_from k (n / 10) ++ (48 + n % 10) ∷ [])
      (λ e. ground arith)
      (starts_digit-append (decimal_from k (n / 10)) (48 + n % 10)
        (starts_digit-decimal_from k (n / 10)) (ground arith))

-- A text that starts with a digit is no `null`.
no_null : (s : Text) → starts_digit s ≡ true → list_eq s (codes "null") ≡ false
unfolding list_eq
no_null [] h = refl
no_null (c ∷ s) h = ground arith

pub decimal-no_null : (n : ℕ) → list_eq (decimal n) (codes "null") ≡ false
decimal-no_null n = no_null (decimal n) (unfold decimal in starts_digit-decimal_from (suc n) n)

-- The first digit of a number is not 0, but for that of 0.
abbrev starts_nonzero : Text → Bool
starts_nonzero [] = false
starts_nonzero (c ∷ s) = is_digit c && not (c == b'0')

starts_nonzero-append : (s t : Text) → starts_nonzero s ≡ true → starts_nonzero (s ++ t) ≡ true
starts_nonzero-append [] t h = cc
starts_nonzero-append (c ∷ s) t h = h

starts_nonzero-decimal_from : (k n : ℕ) → 1 ≤ n → n ≤ k → starts_nonzero (decimal_from k n) ≡ true
unfolding decimal_from
starts_nonzero-decimal_from zero n h l = absurd (omega (arith, h, l))
starts_nonzero-decimal_from (suc k) n h l = elim (Bool-cases (ltb n 10)) [
  | inl e ↦ rw e (ground (arith, e, h))
  | inr e ↦
      let ten : 10 ≤ n = ground (arith, e) in
      rw e (
        starts_nonzero-append (decimal_from k (n / 10)) ((48 + n % 10) ∷ [])
          (starts_nonzero-decimal_from k (n / 10) (omega (arith, ten)) (omega (arith, l, ten))))
]

pub starts_nonzero-equals_zero : (s : Text) → starts_nonzero s ≡ true → equals_zero s ≡ false
unfolding equals_zero only_zeros list_eq
starts_nonzero-equals_zero [] h = cc
starts_nonzero-equals_zero (c ∷ s) h = ground arith

-- A number is missing exactly when it is 0.
is_missing-number : (n : ℕ) → is_missing (some (number n)) ≡ (n == 0)
unfolding is_missing equals_zero
is_missing-number zero = unfold decimal in refl
is_missing-number (suc n) =
    rw
      (
        decimal-no_null (suc n),
        starts_nonzero-equals_zero (decimal (suc n)) (
            unfold decimal in
            starts_nonzero-decimal_from (suc (suc n)) (suc n) (omega arith) (omega arith)),
      )
      (ground arith)

-- The mandatory values are there.
pub record IsFilled (b : BuildInput) : Type 0 where
  pub title : b.title ≢ []
  pub author : b.author ≢ []
  pub source_language : b.source_language ≢ []
  pub target_language : b.target_language ≢ []
  pub page_count : b.page_count ≢ 0
  pub slug : b.slug ≢ []
  pub book_id : b.book_id ≢ []

-- Each of the fields in turn.
pub missing_iff :
    (key : String) (metadata : Fields) (keys : List String) (m : Bool)
    → is_missing (get key metadata) ≡ m
    → (missing_fields metadata (key ∷ keys) ≡ [])
      ↔ ((m ≡ false) × (missing_fields metadata keys ≡ []))
unfolding missing_fields
missing_iff key metadata keys true e = rw e (λ h. cc, λ h. cc)
missing_iff key metadata keys false e = rw e (λ h. (refl, h), λ h. h.1)

not_empty_iff : (t : Text) → (is_empty t ≡ false) ↔ (t ≢ [])
not_empty_iff [] = (λ h. cc, λ h. absurd (h refl))
not_empty_iff (c ∷ t) = (λ h e. cc, λ h. refl)

not_zero_iff : (n : ℕ) → ((n == 0) ≡ false) ↔ (n ≢ 0)
not_zero_iff n = (λ h. ground arith, λ h. ground arith)

valid_iff : (m : List Violation) → (append_to m (some []) ≡ some []) ↔ (m ≡ [])
valid_iff [] = (λ h. refl, λ h. refl)
valid_iff (v ∷ m) = (λ h. cc, λ h. cc)

-- Built metadata is valid exactly when the title, the author, both languages, the number of pages, the slug and the
-- identifier are given and not empty or 0, whatever the other arguments, the time and the environment are.
pub validate_metadata-build_metadata_iff :
    (now_iso env_note : Text) (b : BuildInput)
    → (validate_metadata (build_metadata now_iso env_note b) ≡ some []) ↔ IsFilled b
unfolding validate_metadata build_metadata get
validate_metadata-build_metadata_iff now_iso env_note b =
    let m : Fields = build_metadata now_iso env_note b in
    let (f, f') = valid_iff (missing_fields m mandatory_fields) in
    let (f1, g1) = missing_iff "title" m (drop 1 mandatory_fields) (is_empty b.title) refl in
    let (f2, g2) = missing_iff "author" m (drop 2 mandatory_fields) (is_empty b.author) refl in
    let (f3, g3) =
      missing_iff "source_language" m (drop 3 mandatory_fields) (is_empty b.source_language) refl in
    let (f4, g4) =
      missing_iff "target_language" m (drop 4 mandatory_fields) (is_empty b.target_language) refl in
    let (f5, g5) =
      missing_iff "page_count" m (drop 5 mandatory_fields) (b.page_count == 0)
        (is_missing-number b.page_count) in
    let (f6, g6) = missing_iff "slug" m (drop 6 mandatory_fields) (is_empty b.slug) refl in
    let (f7, g7) = missing_iff "book_id" m [] (is_empty b.book_id) refl in
    (
      λ h.
          let h1 = f1 (f h) in
          let h2 = f2 h1.1 in
          let h3 = f3 h2.1 in
          let h4 = f4 h3.1 in
          let h5 = f5 h4.1 in
          let h6 = f6 h5.1 in
          let h7 = f7 h6.1 in
          record {
            title = (not_empty_iff b.title).0 h1.0;
            author = (not_empty_iff b.author).0 h2.0;
            source_language = (not_empty_iff b.source_language).0 h3.0;
            target_language = (not_empty_iff b.target_language).0 h4.0;
            page_count = (not_zero_iff b.page_count).0 h5.0;
            slug = (not_empty_iff b.slug).0 h6.0;
            book_id = (not_empty_iff b.book_id).0 h7.0;
          },
      λ v. f' (
          g1 (
            (not_empty_iff b.title).1 v.title,
            g2 (
              (not_empty_iff b.author).1 v.author,
              g3 (
                (not_empty_iff b.source_language).1 v.source_language,
                g4 (
                  (not_empty_iff b.target_language).1 v.target_language,
                  g5 (
                    (not_zero_iff b.page_count).1 v.page_count,
                    g6 (
                      (not_empty_iff b.slug).1 v.slug,
                      g7 ((not_empty_iff b.book_id).1 v.book_id, refl),
                    ),
                  ),
                ),
              ),
            ),
          )),
    )
