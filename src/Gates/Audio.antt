-- ===== src/Gates/Audio.antt =====
-- `audio_quality_gate` of src/transpose/pipeline/audio_quality_gate.py.
use transpose.Prelude.{
  ℕ, ◌*◌, ◌≤◌, ◌≡◌, ◌≢◌, ◌↔◌, true, List, [], ◌∷◌, ◌++◌, arith, ltb, if◌then◌else◌, All, findings,
  findings_iff,
}
use transpose.Text.{is_empty}
use transpose.Gates.Types.{
  Failure, no_audio_chapters, audio_too_small, audio_too_short, audio_too_long, GateResult, result,
  ChapterAudio, AudiobookOutput,
}

abbrev min_duration_ms : ℕ
min_duration_ms = 5000

chapter_issues : ChapterAudio → List Failure
chapter_issues ch =
    (if ltb ch.file_size_bytes 1024
      then audio_too_small ch.chapter_number ch.file_size_bytes ∷ []
      else [])
    ++ (if ltb ch.duration_ms min_duration_ms
        then audio_too_short ch.chapter_number ch.duration_ms ∷ []
        else if ltb (30 * 60 * 1000) ch.duration_ms
        then audio_too_long ch.chapter_number ch.duration_ms ∷ []
        else [])

unfoldable pub audio_quality_gate : AudiobookOutput → GateResult
unfolding chapter_issues findings
audio_quality_gate out =
    if is_empty out.chapters
    then result "audio_quality" (no_audio_chapters ∷ [])
    else result "audio_quality" (findings chapter_issues out.chapters)

-- At least 1 KB, and between five seconds and half an hour.
pub record IsPlayable (ch : ChapterAudio) : Type 0 where
  pub whole : 1024 ≤ ch.file_size_bytes
  pub long_enough : 5000 ≤ ch.duration_ms
  pub short_enough : ch.duration_ms ≤ 1800000

chapter_iff : (ch : ChapterAudio) → (chapter_issues ch ≡ []) ↔ IsPlayable ch
unfolding chapter_issues
chapter_iff ch = ground arith

-- The gate lets an audiobook pass exactly when it has a chapter and every chapter is playable.
pub audio_quality_gate_iff :
    (out : AudiobookOutput)
    → ((audio_quality_gate out).passed ≡ true) ↔ ((out.chapters ≢ []) × All IsPlayable out.chapters)
unfolding audio_quality_gate
audio_quality_gate_iff out =
    let (f, f') = findings_iff IsPlayable chapter_issues chapter_iff out.chapters in
    (λ h. (ground arith, f (ground arith)), λ v. ground (arith, v.0, f' v.1))
