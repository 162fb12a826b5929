-- ===== src/Glossary.antt =====
-- The glossary stage, src/transpose/pipeline/glossary.py. A `dict` is the list of its items, in the order in which
-- they were added; a text is the list of its code points. Log lines are left out.
pub mod Terms
pub mod Variants
pub mod Stage
pub mod Counted
pub mod Merged
mod Tests
