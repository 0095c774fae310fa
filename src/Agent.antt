-- ===== src/Agent.antt =====
-- internal/agent: the Agent Runs, from the claim of a queued Run to the handover of its reply.
pub mod Run
pub mod Lane
pub mod Approvals
pub mod Claim
pub mod Saves
pub mod Mentions
pub mod Resolve
pub mod Enqueue
pub mod Intake
pub mod Failure
pub mod Turn
pub mod Exhaustion
pub mod Failed
pub mod Lease
pub mod Catalog
pub mod Grounding
pub mod Target
pub mod Grounded
pub mod Worker
