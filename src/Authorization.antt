-- ===== src/Authorization.antt =====
-- scripts/dev/authorization-*.mjs: from a decision record to an envelope, its single use, and the
-- loop that drives both.
pub mod Records
pub mod Binder
pub mod Rederive
pub mod Ledger
pub mod Lock
pub mod Executor
pub mod Loop
