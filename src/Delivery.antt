-- ===== src/Delivery.antt =====
-- The delivery component (internal/delivery of platform-api): a queue of replies, each for one
-- Agent Run, sent to its channel by a worker that holds a lease on the row.
pub mod Statements
pub mod Prepare
pub mod Exhausted
pub mod Claim
pub mod Marks
pub mod Row
pub mod Unique
pub mod Invariant
pub mod Steps
pub mod Finality
pub mod Frame
pub mod Outcomes
pub mod Settling
pub mod Settlement
pub mod Sender
pub mod Worker
pub mod Channels
pub mod Once
