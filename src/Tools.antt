-- ===== src/Tools.antt =====
-- internal/toolruntime: whether a tool may be called, and the call.
pub mod Policy
pub mod Service
pub mod Lifecycle
pub mod Ledger
pub mod Outcomes
pub mod Verdict
pub mod Replay
pub mod Authority
