-- ===== src/Channel.antt =====
-- Payment channels:
-- libs/payment-core-webservice/src/service/payment-operation-management.service.ts.
pub mod Allocation
pub mod Operations
mod Tests
