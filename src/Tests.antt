-- ===== src/Tests.antt =====
-- Runs of the model on concrete inputs.
pub mod Fixtures
mod Sessions
mod Proofs
mod Binding
mod Ledger
mod Loop
mod Planning
mod Firewall
mod Construct
mod Publication
mod Hooks
mod Executor
mod Proven
