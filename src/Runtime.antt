-- ===== src/Runtime.antt =====
-- runtime/: what the agent loop hands to the model.
pub mod Window
pub mod Context
mod Examples
mod ContextExamples
