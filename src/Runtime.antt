-- ===== src/Runtime.antt =====
-- s13code/runtime.py: the planner that `run` makes for a request.
pub mod Nodes
pub mod Rules
pub mod Work
mod Tasks
mod Holds
pub mod Growth
pub mod Ending
pub mod Recalled
pub mod Evidence
mod Tests
