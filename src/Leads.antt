-- ===== src/Leads.antt =====
-- services/lead_service.py: leads, their import, and their assignment to campaigns.
pub mod Schema
pub mod Normalize
pub mod Assign
pub mod Edit
pub mod Remove
pub mod Import
pub mod Touch
pub mod Requests
pub mod Frames
pub mod Accounting
pub mod Keeps
pub mod Statements
pub mod Single
pub mod Histories
pub mod Uniqueness
pub mod Ownership
pub mod Tenants
pub mod Upserts
pub mod Identifiers
mod Tests
