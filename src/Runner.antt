-- ===== src/Runner.antt =====
-- nse/cli/runner.py: the suite runner, which decides pass and fail.
pub mod Verdicts
pub mod Suite
pub mod Case
pub mod Sample
mod Tests
