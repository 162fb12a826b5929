-- ===== src/Transcript/Timed.antt =====
-- The times of the cues of src/transpose/pipeline/transcript.py.
use transpose.Prelude.{ℕ, ◌≤◌, Bool, true, false, List, [], ◌∷◌, ◌++◌, flatten, arith}
use transpose.Transcript.{WordTiming, group_into_cues, group_into_cues_lem}
use transpose.Transcript.Files.{Span, last_end, spans_of, word_spans, vtt_spans}

-- From `t` on, each word starts where the one before has ended or later, and does not end before it starts.
abbrev pub Spoken : ℕ → List WordTiming → Type 0
Spoken t [] = Unit {0}
Spoken t (w ∷ ws) = (t ≤ w.start_ms) × (w.start_ms ≤ w.end_ms) × Spoken w.end_ms ws

-- The same of cues.
abbrev pub InOrder : ℕ → List Span → Type 0
InOrder t [] = Unit {0}
InOrder t (c ∷ cs) = (t ≤ c.start_ms) × (c.start_ms ≤ c.end_ms) × InOrder c.end_ms cs

-- A first part of the words, and what follows it.
Spoken-append :
    (w : WordTiming) (ws vs : List WordTiming)
    → Spoken w.end_ms (ws ++ vs)
    → (w.end_ms ≤ last_end w ws) × Spoken (last_end w ws) vs
Spoken-append w [] vs h = (omega arith, h)
Spoken-append w (v ∷ ws) vs (a, b, c) =
    let (d, e) = Spoken-append v ws vs c in (omega (arith, a, b, d), e)

InOrder-spans_of :
    (t : ℕ) (cues : List (List WordTiming)) → Spoken t (flatten cues) → InOrder t (spans_of cues)
unfolding spans_of
InOrder-spans_of t [] h = tt
InOrder-spans_of t ([] ∷ cues) h = InOrder-spans_of t cues h
InOrder-spans_of t ((w ∷ ws) ∷ cues) (a, b, c) =
    let (d, e) = Spoken-append w ws (flatten cues) c in
    (a, omega (arith, b, d), InOrder-spans_of (last_end w ws) cues e)

InOrder-word_spans : (t : ℕ) (ws : List WordTiming) → Spoken t ws → InOrder t (word_spans ws)
unfolding word_spans
InOrder-word_spans t [] h = tt
InOrder-word_spans t (w ∷ ws) (a, b, c) = (a, b, InOrder-word_spans w.end_ms ws c)

-- If the words do not overlap and are in order, neither do the cues, and they are in order, in both modes.
pub vtt_spans-InOrder :
    (word_mode : Bool) (words : List WordTiming) (n t : ℕ)
    → Spoken t words
    → InOrder t (vtt_spans word_mode words n)
unfolding vtt_spans
vtt_spans-InOrder true words n t h = InOrder-word_spans t words h
vtt_spans-InOrder false words n t h =
    InOrder-spans_of t (group_into_cues words n) (rw (group_into_cues_lem words n).kept h)
