-- ===== src/Runner/Suite.antt =====
-- The suite file of nse/cli/runner.py: its values, its cases, and the run of all of them.
pub mod Value
pub mod Error
pub mod Build
pub mod Run
