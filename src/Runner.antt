-- ===== src/Runner.antt =====
-- The orchestrator, src/transpose/pipeline/runner.py.
pub mod Types
pub mod Services
pub mod Events
pub mod Report
pub mod Resume
pub mod Stages
pub mod Program
pub mod Calm
pub mod Walk
pub mod Order
pub mod Handler
pub mod Locked
pub mod Ends
pub mod Release
pub mod Resumed
pub mod Tests
