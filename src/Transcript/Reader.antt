-- ===== src/Transcript/Reader.antt =====
-- A reader of WebVTT time stamps, for what src/transpose/pipeline/transcript.py writes.
use transpose.Prelude.{
  sym, append-nil, ℕ, zero, suc, ◌+◌, ◌-◌, ◌*◌, ◌/◌, ◌%◌, ◌≤◌, ◌<◌, ◌≡◌, refl, ap, ◌∙◌, Bool, true,
  false, ◌&&◌, Option, none, some, List, [], ◌∷◌, ◌++◌, arith, append_assoc, ltb, leb, ◌==◌,
  Bool-cases, inl, inr, if◌then◌else◌,
}
use transpose.Text.{Text}
use transpose.Transcript.Stamps.{decimal_from, decimal, pad2, pad3, format_vtt_ts, is_digit}

-- One character for each test.
matches : List (ℕ → Bool) → Text → Bool
matches [] [] = true
matches [] (c ∷ s) = false
matches (p ∷ ps) [] = false
matches (p ∷ ps) (c ∷ s) = let rest = matches ps s in p c && rest

-- The first digit of a number below 60.
abbrev below_six : ℕ → Bool
below_six c = leb b'0' c && leb c b'5'

abbrev is_colon : ℕ → Bool
is_colon c = c == b':'

-- `:MM:SS.mmm`
abbrev behind_hours : List (ℕ → Bool)
behind_hours =
    is_colon
    ∷ below_six
    ∷ is_digit
    ∷ is_colon
    ∷ below_six
    ∷ is_digit
    ∷ (λ c. c == b'.')
    ∷ is_digit
    ∷ is_digit
    ∷ is_digit
    ∷ []

-- The hours have at least two digits.
is_stamp_from : ℕ → Text → Bool
is_stamp_from digits [] = false
is_stamp_from digits (c ∷ s) =
    let rest = is_stamp_from (suc digits) s in
    if is_digit c then rest else leb 2 digits && matches behind_hours (c ∷ s)

-- The number up to a character that is no digit, and what follows that character.
read_number : ℕ → Text → ℕ × Text
read_number n [] = (n, [])
read_number n (c ∷ s) =
    let rest = read_number (n * 10 + (c - 48)) s in if is_digit c then rest else (n, s)

value_of : Text → ℕ
value_of t =
    let (h, minutes) = read_number 0 t in
    let (m, seconds) = read_number 0 minutes in
    let (s, thousandths) = read_number 0 seconds in
    let (mil, rest) = read_number 0 thousandths in h * 3600000 + (m * 60000 + (s * 1000 + mil))

read-digit :
    (acc d : ℕ) (rest : Text)
    → d < 10
    → read_number acc ((48 + d) ∷ rest) ≡ read_number (acc * 10 + d) rest
unfolding read_number
read-digit acc d rest h =
    let digit : is_digit (48 + d) ≡ true = ground (arith, h) in
    rw digit (ap (λ n. read_number n rest) (omega arith))

read-decimal_from :
    (k n : ℕ) (rest : Text)
    → n ≤ k
    → read_number 0 (decimal_from (suc k) n ++ rest) ≡ read_number n rest
unfolding decimal_from
read-decimal_from zero n rest h = elim (Bool-cases (ltb n 10)) [
  | inl e ↦
      rw e (read-digit 0 n rest (ground (arith, e)) ∙ ap (λ n. read_number n rest) (omega arith))
  | inr e ↦ absurd (ground (arith, e, h))
]
read-decimal_from (suc k) n rest h = elim (Bool-cases (ltb n 10)) [
  | inl e ↦
      rw e (read-digit 0 n rest (ground (arith, e)) ∙ ap (λ n. read_number n rest) (omega arith))
  | inr e ↦
      let ten : 10 ≤ n = ground (arith, e) in
      rw e (
        ap (read_number 0) (append_assoc (decimal_from (suc k) (n / 10)) ((48 + n % 10) ∷ []) rest)
        ∙ (read-decimal_from k (n / 10) ((48 + n % 10) ∷ rest) (omega (arith, h, ten))
            ∙ (read-digit (n / 10) (n % 10) rest (omega arith)
                ∙ ap (λ m. read_number m rest) (omega arith))))
]

read-decimal : (n : ℕ) (rest : Text) → read_number 0 (decimal n ++ rest) ≡ read_number n rest
unfolding decimal
read-decimal n rest = read-decimal_from n n rest (omega arith)

-- A zero in front changes nothing.
read-padded :
    (b : Bool) (t rest : Text)
    → read_number 0 ((if b then b'0' ∷ t else t) ++ rest) ≡ read_number 0 (t ++ rest)
unfolding read_number
read-padded true t rest = refl
read-padded false t rest = refl

read-pad2 : (n : ℕ) (rest : Text) → read_number 0 (pad2 n ++ rest) ≡ read_number n rest
unfolding pad2
read-pad2 n rest = read-padded (ltb n 10) (decimal n) rest ∙ read-decimal n rest

read-pad3 : (n : ℕ) → read_number 0 (pad3 n) ≡ (n, [])
unfolding pad3 read_number
read-pad3 n = elim (Bool-cases (ltb n 100)) [
  | inl e ↦
      ap (read_number 0) (sym (append-nil (pad3 n)))
      ∙ rw e (read-padded true (pad2 n) [] ∙ read-pad2 n [])
  | inr e ↦ ap (read_number 0) (sym (append-nil (pad3 n))) ∙ rw e (read-decimal n [])
]

read-colon : (n : ℕ) (rest : Text) → read_number n (b':' ∷ rest) ≡ (n, rest)
unfolding read_number
read-colon n rest = refl

read-stop : (n : ℕ) (rest : Text) → read_number n (b'.' ∷ rest) ≡ (n, rest)
unfolding read_number
read-stop n rest = refl

value_of_lem :
    (h m s mil : ℕ)
    → value_of (pad2 h ++ (b':' ∷ (pad2 m ++ (b':' ∷ (pad2 s ++ (b'.' ∷ pad3 mil))))))
      ≡ h * 3600000 + (m * 60000 + (s * 1000 + mil))
unfolding value_of
value_of_lem h m s mil =
    rw
      (
        read-pad2 h,
        read-colon h,
        read-pad2 m,
        read-colon m,
        read-pad2 s,
        read-stop s,
        read-pad3 mil,
      )
      refl

-- The time of a stamp, of a text that is one.
pub read_ts : Text → Option ℕ
read_ts t = if is_stamp_from 0 t then some (value_of t) else none

two_digits : (n : ℕ) → n < 100 → pad2 n ≡ (48 + n / 10) ∷ (48 + n % 10) ∷ []
unfolding pad2 decimal decimal_from
two_digits zero h = refl
two_digits (suc n) h = elim (Bool-cases (ltb (suc n) 10)) [
  | inl e ↦ rw e (
      let q : suc n / 10 ≡ 0 = ground (arith, e) in
      let r : suc n % 10 ≡ suc n = ground (arith, e) in rw (q, r) refl)
  | inr e ↦ let f : ltb (suc n / 10) 10 ≡ true = ground (arith, h) in rw (e, f) refl
]

three_digits :
    (n : ℕ) → n < 1000 → pad3 n ≡ (48 + n / 100) ∷ (48 + n % 100 / 10) ∷ (48 + n % 10) ∷ []
unfolding pad3 decimal decimal_from
three_digits zero h = refl
three_digits (suc zero) h = refl
three_digits (suc (suc n)) h = elim (Bool-cases (ltb (suc (suc n)) 100)) [
  | inl e ↦
      rw (e, two_digits (suc (suc n)) (ground (arith, e)))
        (let q : suc (suc n) / 100 ≡ 0 = ground (arith, e) in
          let r : suc (suc n) % 100 ≡ suc (suc n) = ground (arith, e) in rw (q, r) refl)
  | inr e ↦
      let one : ltb (suc (suc n)) 10 ≡ false = ground (arith, e) in
      let two : ltb (suc (suc n) / 10) 10 ≡ false = ground (arith, e) in
      let three : ltb (suc (suc n) / 10 / 10) 10 ≡ true = ground (arith, h) in
      let q : suc (suc n) / 10 / 10 ≡ suc (suc n) / 100 = omega arith in
      let r : suc (suc n) / 10 % 10 ≡ suc (suc n) % 100 / 10 = omega arith in
      rw (e, one, two, three, q, r) refl
]

digit_lem : (d : ℕ) → d < 10 → is_digit (48 + d) ≡ true
digit_lem d h = ground (arith, h)

below_six_lem : (d : ℕ) → d < 6 → below_six (48 + d) ≡ true
below_six_lem d h = ground (arith, h)

matches_lem :
    (m s mil : ℕ)
    → m < 60
    → s < 60
    → mil < 1000
    → matches behind_hours (b':' ∷ (pad2 m ++ (b':' ∷ (pad2 s ++ (b'.' ∷ pad3 mil))))) ≡ true
matches_lem m s mil hm hs hmil =
    rw (two_digits m (omega (arith, hm)), two_digits s (omega (arith, hs)), three_digits mil hmil)
      (unfold matches in
        rw
          (
            below_six_lem (m / 10) (omega (arith, hm)),
            digit_lem (m % 10) (omega arith),
            below_six_lem (s / 10) (omega (arith, hs)),
            digit_lem (s % 10) (omega arith),
            digit_lem (mil / 100) (omega (arith, hmil)),
            digit_lem (mil % 100 / 10) (omega arith),
            digit_lem (mil % 10) (omega arith),
          )
          refl)

from-digit :
    (i d : ℕ) (rest : Text)
    → d < 10
    → is_stamp_from i ((48 + d) ∷ rest) ≡ is_stamp_from (suc i) rest
unfolding is_stamp_from
from-digit i d rest h = let digit : is_digit (48 + d) ≡ true = ground (arith, h) in rw digit refl

from-last :
    (i d : ℕ) (rest : Text)
    → d < 10
    → ((j : ℕ) → i < j → is_stamp_from j rest ≡ true)
    → (j : ℕ) → i < j
    → is_stamp_from j ((48 + d) ∷ rest) ≡ true
from-last i d rest h f j l = from-digit j d rest h ∙ f (suc j) (omega (arith, l))

-- A number is at least one digit.
from-decimal :
    (k n i : ℕ) (rest : Text)
    → n ≤ k
    → ((j : ℕ) → i < j → is_stamp_from j rest ≡ true)
    → is_stamp_from i (decimal_from (suc k) n ++ rest) ≡ true
unfolding decimal_from
from-decimal zero n i rest h f = elim (Bool-cases (ltb n 10)) [
  | inl e ↦ rw e (from-digit i n rest (ground (arith, e)) ∙ f (suc i) (omega arith))
  | inr e ↦ absurd (ground (arith, e, h))
]
from-decimal (suc k) n i rest h f = elim (Bool-cases (ltb n 10)) [
  | inl e ↦ rw e (from-digit i n rest (ground (arith, e)) ∙ f (suc i) (omega arith))
  | inr e ↦
      let ten : 10 ≤ n = ground (arith, e) in
      rw e (
        ap (is_stamp_from i)
          (append_assoc (decimal_from (suc k) (n / 10)) ((48 + n % 10) ∷ []) rest)
        ∙ from-decimal k (n / 10) i ((48 + n % 10) ∷ rest) (omega (arith, h, ten))
            (from-last i (n % 10) rest (omega arith) f))
]

-- Behind two digits or more, the rest of the stamp.
stamp_lem :
    (h : ℕ) (rest : Text)
    → ((j : ℕ) → 1 < j → is_stamp_from j rest ≡ true)
    → is_stamp_from 0 (pad2 h ++ rest) ≡ true
unfolding pad2 decimal decimal_from
stamp_lem zero rest f =
    from-digit 0 0 (48 ∷ rest) (omega arith)
    ∙ (from-digit 1 0 rest (omega arith) ∙ f 2 (omega arith))
stamp_lem (suc h) rest f = elim (Bool-cases (ltb (suc h) 10)) [
  | inl e ↦ rw e (
      from-digit 0 0 ((48 + suc h) ∷ rest) (omega arith)
      ∙ (from-digit 1 (suc h) rest (ground (arith, e)) ∙ f 2 (omega arith)))
  | inr e ↦
      let ten : 10 ≤ suc h = ground (arith, e) in
      rw e (
        ap (is_stamp_from 0)
          (append_assoc (decimal_from (suc h) (suc h / 10)) ((48 + suc h % 10) ∷ []) rest)
        ∙ from-decimal h (suc h / 10) 0 ((48 + suc h % 10) ∷ rest) (omega (arith, ten))
            λ j l. from-digit j (suc h % 10) rest (omega arith) ∙ f (suc j) (omega (arith, l)))
]

from-colon :
    (j : ℕ) (rest : Text)
    → matches behind_hours (b':' ∷ rest) ≡ true
    → 1 < j
    → is_stamp_from j (b':' ∷ rest) ≡ true
unfolding is_stamp_from
from-colon j rest e h = let two : leb 2 j ≡ true = ground (arith, h) in rw (two, e) refl

-- The time stamp of some milliseconds has the form of WebVTT: hours of at least two digits, minutes and seconds of two,
-- below 60, behind a colon each, and thousandths of three digits behind a stop. It is read back as these milliseconds.
pub read_ts-format_vtt_ts : (ms : ℕ) → read_ts (format_vtt_ts ms) ≡ some ms
unfolding format_vtt_ts read_ts
read_ts-format_vtt_ts ms =
    let h = ms / 3600000 in
    let m = ms % 3600000 / 60000 in
    let s = ms % 60000 / 1000 in
    let mil = ms % 1000 in
    let formed =
      stamp_lem h (b':' ∷ (pad2 m ++ (b':' ∷ (pad2 s ++ (b'.' ∷ pad3 mil)))))
        λ j l. from-colon j _ (matches_lem m s mil (omega arith) (omega arith) (omega arith)) l in
    rw (formed, value_of_lem h m s mil) (ap some (omega arith))
