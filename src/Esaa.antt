-- ===== src/Esaa.antt =====
-- The `esaa` module: intentions, the contracts that judge them and the orchestrator that acts on
-- the verdict.
pub mod Paths
mod Examples
mod OrchestratorExamples
mod ProjectionExamples
mod ReplayExamples
pub mod Intentions
pub mod Contracts
pub mod Approval
pub mod Orchestrator
pub mod Replay
pub mod Projections
