-- ===== src/Gates.antt =====
-- The quality gates between the stages (src/transpose/pipeline/gates.py, audio_quality_gate.py).
pub mod Types
pub mod Ocr
pub mod Translation
pub mod Readiness
pub mod Ready
pub mod StaleLocks
pub mod PreflightTests
pub mod Glossary
pub mod Structure
pub mod Artifacts
pub mod Audio
pub mod Tests
