-- ===== src/Transcript/Files.antt =====
-- The two file formats of src/transpose/pipeline/transcript.py.
use transpose.Prelude.{ℕ, suc, Bool, true, false, List, [], ◌∷◌, ◌++◌}
use transpose.Text.{Text, codes}
use transpose.Transcript.{WordTiming, group_into_cues}
use transpose.Transcript.Stamps.{decimal, format_vtt_ts, format_srt_ts}

-- A cue's time and its words; a cue is not empty.
pub record Span : Type 0 where
  pub start_ms : ℕ
  pub end_ms : ℕ
  pub text : Text

abbrev pub last_end : WordTiming → List WordTiming → ℕ
last_end w [] = w.end_ms
last_end w (v ∷ vs) = last_end v vs

-- `" ".join(w.text for w in cue)`
abbrev pub spoken : WordTiming → List WordTiming → Text
spoken w [] = w.text
spoken w (v ∷ vs) = w.text ++ 32 ∷ spoken v vs

unfoldable pub spans_of : List (List WordTiming) → List Span
spans_of [] = []
spans_of ([] ∷ cues) = spans_of cues
spans_of ((w ∷ ws) ∷ cues) =
    record { start_ms = w.start_ms; end_ms = last_end w ws; text = spoken w ws } ∷ spans_of cues

unfoldable pub word_spans : List WordTiming → List Span
word_spans [] = []
word_spans (w ∷ ws) =
    record { start_ms = w.start_ms; end_ms = w.end_ms; text = w.text } ∷ word_spans ws

-- `"\n".join(lines)`
abbrev pub join_lines : List Text → Text
join_lines [] = []
join_lines (l ∷ []) = l
join_lines (l ∷ m ∷ ls) = l ++ 10 ∷ join_lines (m ∷ ls)

abbrev pub arrow : Text
arrow = codes " --> "

unfoldable pub vtt_lines : List Span → List Text
unfolding format_vtt_ts
vtt_lines [] = []
vtt_lines (c ∷ cs) =
    (format_vtt_ts c.start_ms ++ (arrow ++ format_vtt_ts c.end_ms)) ∷ c.text ∷ [] ∷ vtt_lines cs

unfoldable pub srt_lines : ℕ → List Span → List Text
unfolding format_srt_ts decimal
srt_lines i [] = []
srt_lines i (c ∷ cs) =
    decimal i
    ∷ (format_srt_ts c.start_ms ++ (arrow ++ format_srt_ts c.end_ms))
    ∷ c.text
    ∷ []
    ∷ srt_lines (suc i) cs

-- The cues of `generate_vtt`; the mode is "word" or not.
unfoldable pub vtt_spans : Bool → List WordTiming → ℕ → List Span
unfolding spans_of word_spans group_into_cues
vtt_spans true word_timings words_per_cue = word_spans word_timings
vtt_spans false word_timings words_per_cue = spans_of (group_into_cues word_timings words_per_cue)

unfoldable pub generate_vtt : List WordTiming → Bool → ℕ → Text
unfolding vtt_spans vtt_lines
generate_vtt [] word_mode words_per_cue = codes "WEBVTT\n\n"
generate_vtt (w ∷ ws) word_mode words_per_cue =
    join_lines (codes "WEBVTT" ∷ [] ∷ vtt_lines (vtt_spans word_mode (w ∷ ws) words_per_cue))

unfoldable pub generate_srt : List WordTiming → ℕ → Text
unfolding spans_of group_into_cues srt_lines
generate_srt [] words_per_cue = []
generate_srt (w ∷ ws) words_per_cue =
    join_lines (srt_lines 1 (spans_of (group_into_cues (w ∷ ws) words_per_cue)))
