-- ===== src/Council.antt =====
-- scripts/dev/decision-council-kernel.mjs, council-quorum-proof.mjs, decision-council-simulator.mjs:
-- the decision council, its records, and the proof of its quorum.
pub mod Types
pub mod Hashes
pub mod Validity
pub mod Quorum
pub mod Sessions
pub mod Kernel
pub mod Invariant
pub mod Decision
pub mod Machine
pub mod Proof
