-- ===== src/Transcript/Tests.antt =====
-- Cues of src/transpose/pipeline/transcript.py for a few words, and the theorem there.
use transpose.Prelude.{arith, some, false, ◌≡◌, refl, String, List, [], ◌∷◌}
use transpose.Text.{codes, rstrip, is_space}
use transpose.Transcript.Stamps.{format_vtt_ts, format_srt_ts}
use transpose.Transcript.Reader.{read_ts, read_ts-format_vtt_ts}
use transpose.Transcript.Files.{vtt_spans, generate_vtt, generate_srt}
use transpose.Transcript.Timed.{InOrder, vtt_spans-InOrder}
use transpose.Transcript.{WordTiming, group_into_cues, IsGrouping, group_into_cues_lem}

abbrev word : String → WordTiming
word s = record { text = codes s; start_ms = 0; end_ms = 10 }

-- The sentence ends after three of five words, which is enough.
abbrev words : List WordTiming
words = word "He" ∷ word "is" ∷ word "gone. " ∷ word "Weep." ∷ word "not" ∷ []

cut_at_sentence :
    group_into_cues words 5
    ≡ (word "He" ∷ word "is" ∷ word "gone. " ∷ []) ∷ (word "Weep." ∷ word "not" ∷ []) ∷ []
unfolding group_into_cues rstrip is_space
cut_at_sentence = refl

group_into_cues_lem_example : IsGrouping 5 words (group_into_cues words 5)
group_into_cues_lem_example = group_into_cues_lem words 5

stamp : format_vtt_ts 3723004 ≡ codes "01:02:03.004"
unfolding format_vtt_ts
stamp = refl

long_stamp : format_srt_ts 360000000 ≡ codes "100:00:00,000"
unfolding format_srt_ts
long_stamp = refl

read_ts-format_vtt_ts_example : read_ts (format_vtt_ts 3723004) ≡ some 3723004
read_ts-format_vtt_ts_example = read_ts-format_vtt_ts 3723004

abbrev timed : List WordTiming
timed =
    record { text = codes "He"; start_ms = 5; end_ms = 10 }
    ∷ record { text = codes "is"; start_ms = 10; end_ms = 30 }
    ∷ []

vtt_spans-InOrder_example : InOrder 0 (vtt_spans false timed 1)
vtt_spans-InOrder_example =
    vtt_spans-InOrder false timed 1 0 (omega arith, omega arith, (omega arith, omega arith, tt))

vtt_file : generate_vtt timed false 2 ≡ codes "WEBVTT\n\n00:00:00.005 --> 00:00:00.030\nHe is\n"
unfolding generate_vtt rstrip is_space
vtt_file = refl

srt_file :
    generate_srt timed 1
    ≡ codes "1\n00:00:00,005 --> 00:00:00,010\nHe\n\n2\n00:00:00,010 --> 00:00:00,030\nis\n"
unfolding generate_srt rstrip is_space
srt_file = refl
