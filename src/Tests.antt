-- ===== src/Tests.antt =====
-- The theorems at concrete states.
mod Data
mod Reply
mod Runs
mod Stuck
mod Tickets
mod Messages
mod Links
mod Rounds
mod Calls
mod Decisions
mod Events
