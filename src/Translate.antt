-- ===== src/Translate.antt =====
-- The translation stage, src/transpose/pipeline/translate.py, on the rows of the table `translations` of
-- src/transpose/services/database.py. The language model, the progress row and the cleaning of OCR text are an
-- interface, `Model`, and `W` is what these change. Clocks, metrics and log lines are left out.
pub mod Rows
pub mod Split
pub mod Single
pub mod Stage
pub mod Written
pub mod Prepared
pub mod Looped
pub mod Counted
pub mod Client
pub mod Complete
pub mod Settled
pub mod Lost
mod Tests
mod ClientTests
