-- ===== src/A2a/Final.antt =====
-- The end of a task of s13code/core/a2a_adapter/server.py: who may still change it.
mod Idle
mod Stays
pub use Idle.*
pub use Stays.*
