-- ===== src/Claim.antt =====
-- instructions/claim.rs: the life of a claim up to its approval or cancellation. Each instruction is
-- its account checks, then its handler.
pub mod Enroll
pub mod Submit
pub mod Approve
pub mod Reject
