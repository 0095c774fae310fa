-- ===== src/Action.antt =====
-- internal/action: an action that an Agent proposes becomes a ticket once its requester approves it.
pub mod Tables
pub mod Store
pub mod Executor
pub mod Round
pub mod Sound
pub mod Outcomes
pub mod Completion
