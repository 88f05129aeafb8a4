-- ===== src/Policy.antt =====
-- policy.rs: the shell policy that decides whether a command may run.
pub mod Split
pub mod Subshell
pub mod ShellWrapper
pub mod Fragments
pub mod Command
pub mod Docker
pub mod Danger
pub mod Variables
pub mod Engine
mod Examples
