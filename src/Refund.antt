-- ===== src/Refund.antt =====
-- libs/payment-core-webservice/src/service/refund.service.ts: the checks of a refund request.
pub mod Failure
pub mod Checks
pub mod Build
pub mod Store
pub mod Service
pub mod Approval
pub mod System
pub mod Reservation
pub mod Lease
pub mod Again
pub mod Release
mod Tests
