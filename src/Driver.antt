-- ===== src/Driver.antt =====
-- crates/supervisor/src/main.rs: the driver of the standard input and output.
pub mod State
pub mod Frames
pub mod Step
pub mod Leases
pub mod Mutations
pub mod Ledger
pub mod Turns
pub mod Sessions
pub mod Commands
pub mod Host
pub mod Resident
pub mod Loop
pub mod Entry
mod Examples
