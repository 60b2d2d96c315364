-- ===== src/Refund/Tests.antt =====
-- Runs of the refund service on a purchase of three pieces at 10.00 in all, and the properties at
-- them.
mod Data
mod Items
mod Steps
