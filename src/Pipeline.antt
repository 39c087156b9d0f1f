-- ===== src/Pipeline.antt =====
-- nse/core/pipeline.py: one test run, with its canaries.
pub mod Machine
pub mod Canary
pub mod Conntrack
pub mod Env
pub mod Stages
pub mod Run
pub mod Progress
pub mod Topology
pub mod Table
pub mod Listeners
pub mod Sample
mod Tests
