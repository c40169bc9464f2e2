-- ===== src/Audit.antt =====
-- The state of a pathway and the evidence log: what any use of the runtime may do to them.
pub mod States
pub mod Trace
pub mod Order
pub mod Writes
pub mod Calls
pub mod Verified
