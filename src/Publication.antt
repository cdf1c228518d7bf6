-- ===== src/Publication.antt =====
-- scripts/dev/publication-builder.mjs: one local commit from a publication envelope.
pub mod Envelope
pub mod Remote
pub mod Host
pub mod Quiet
pub mod Inversion
pub mod Files
pub mod Fingerprint
pub mod Preflight
pub mod Build
