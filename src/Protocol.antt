-- ===== src/Protocol.antt =====
-- crates/protocol/src/messages.rs: the messages of the contract, and its negotiation.
pub mod Initialize
pub mod Session
pub mod Interaction
pub mod Envelope
pub mod Negotiation
mod Examples
