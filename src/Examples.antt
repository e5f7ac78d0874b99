-- ===== src/Examples.antt =====
-- Small inputs, what the program does on them, and each theorem applied to them.
pub mod Samples
mod Tasks
mod Graphs
mod Executions
pub mod Workflows
mod Watchlists
mod Creations
mod Verifications
mod Plannings
