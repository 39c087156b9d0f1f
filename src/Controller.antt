-- ===== src/Controller.antt =====
-- nse/core/netns_controller.py: the life of the namespaces, and the links between them.
pub mod Lifecycle
pub mod Sweep
pub mod Topology
pub mod Sandbox
mod Tests
