-- ===== src/Tests.antt =====
-- Concrete runs of the modelled code, and the theorems applied to them.
mod Ledger
mod Metering
mod Receipts
mod Registering
mod Handshakes
mod Peeking
mod Sending
mod Policies
mod Addresses
mod Admitting
mod Sessions
