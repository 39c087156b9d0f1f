-- ===== src/Models.antt =====
-- nse/models: the events of a trace, and the requests.
mod Event
pub mod Request
pub use Event.*
