-- ===== src/Metering.antt =====
-- The metering of usage, services/metering_service.py.
pub mod Schema
pub mod Actions
pub mod Events
pub mod Periods
pub mod Economics
pub mod Keys
pub mod Billing
pub mod Totals
mod Tests
