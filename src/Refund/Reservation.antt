-- ===== src/Refund/Reservation.antt =====
-- The quantities that refund requests hold of a payment's items: what an approval has counted, and
-- what a pending request still reserves.
pub mod Counts
pub mod Invariant
pub mod Items
pub mod Requested
pub mod Approved
pub mod Nonneg
pub mod Finish
pub mod Create
pub mod Reject
pub mod Resume
pub mod Steps
