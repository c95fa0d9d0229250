-- ===== src/Ui.antt =====
-- s13code/ui: the component catalog, the wall that validates surfaces, the surfaces that the
-- service builds, the AG-UI stream and the approval of actions.
pub mod Catalog
pub mod Patterns
pub mod Validator
pub mod Surface
pub mod Hitl
pub mod Agui
mod Tests
