-- ===== src/A2a/Mirror.antt =====
-- `DurableTaskStore` of s13code/core/a2a_adapter/server.py beside the tasks in memory.
mod Table
mod Kept
mod Restart
pub use Table.*
pub use Restart.*
