-- ===== src/Billing.antt =====
-- crates/broker-billing: metering, tariffs, receipts, prepaid credit, settlement, stake.
pub mod Kind
pub mod Meter
pub mod Tariff
pub mod Prepaid
pub mod Settlement
pub mod Receipt
