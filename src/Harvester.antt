-- ===== src/Harvester.antt =====
-- nse/core/trace_harvester.py: the parser of `nft monitor trace`, and the loop that reads it.
pub mod Parser
pub mod Loop
pub mod Health
pub mod Monitor
mod Tests
