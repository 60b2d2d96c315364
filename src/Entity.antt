-- ===== src/Entity.antt =====
-- The entities of libs/postral-entities that the services keep in the database.
pub mod Status
pub mod Payment
pub mod Refund
pub mod Operation
