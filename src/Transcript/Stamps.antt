-- ===== src/Transcript/Stamps.antt =====
-- The time stamps of src/transpose/pipeline/transcript.py.
use transpose.Prelude.{
  ℕ, zero, suc, ◌+◌, ◌/◌, ◌%◌, Bool, ◌&&◌, [], ◌∷◌, ◌++◌, map, ltb, leb, ◌==◌, if◌then◌else◌,
}
use transpose.Text.{Text}

-- `str(n)`, with fuel for one round per digit.
unfoldable pub decimal_from : ℕ → ℕ → Text
decimal_from zero n = []
decimal_from (suc k) n =
    let rest = decimal_from k (n / 10) in
    if ltb n 10 then (48 + n) ∷ [] else rest ++ (48 + n % 10) ∷ []

unfoldable pub decimal : ℕ → Text
unfolding decimal_from
decimal n = decimal_from (suc n) n

-- `f"{n:02d}"` and `f"{n:03d}"`
unfoldable pub pad2 : ℕ → Text
unfolding decimal
pad2 n = if ltb n 10 then b'0' ∷ decimal n else decimal n

unfoldable pub pad3 : ℕ → Text
unfolding pad2
pad3 n = if ltb n 100 then b'0' ∷ pad2 n else decimal n

unfoldable pub format_vtt_ts : ℕ → Text
unfolding pad2 pad3
format_vtt_ts ms =
    let h = ms / 3600000 in
    let m = (ms % 3600000) / 60000 in
    let s = (ms % 60000) / 1000 in
    let mil = ms % 1000 in pad2 h ++ (b':' ∷ (pad2 m ++ (b':' ∷ (pad2 s ++ (b'.' ∷ pad3 mil)))))

-- `.replace(".", ",")`
unfoldable pub format_srt_ts : ℕ → Text
unfolding format_vtt_ts
format_srt_ts ms = map (λ c. if c == b'.' then b',' else c) (format_vtt_ts ms)

abbrev pub is_digit : ℕ → Bool
is_digit c = leb b'0' c && leb c b'9'
