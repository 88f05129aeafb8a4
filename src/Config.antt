-- ===== src/Config.antt =====
-- config/: the pipelines of a project, and the expressions in them.
pub mod When
pub mod Error
pub mod Pipeline
pub mod Dag
pub mod Refs
pub mod Validate
pub mod Search
pub mod Workspace
mod Examples
