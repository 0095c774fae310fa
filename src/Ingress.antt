-- ===== src/Ingress.antt =====
-- internal/ingress: messages become events of an outbox, which are published to the Agent.
pub mod Message
pub mod Tables
pub mod Store
pub mod Steps
pub mod Publisher
pub mod Consumer
pub mod Outbox
pub mod Sent
pub mod Again
pub mod Committed
pub mod Groups
pub mod Log
