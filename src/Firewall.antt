-- ===== src/Firewall.antt =====
-- tools/orchestrator-firewall/src: the receipt ledger and the stop gate.
pub mod Chain
pub mod Receipts
pub mod Threads
pub mod StopGate
pub mod Policy
pub mod Machine
pub mod Protection
pub mod Delegation
pub mod Settings
pub mod Hooks
pub mod Dispatch
