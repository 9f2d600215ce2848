-- ===== src/Outreach.antt =====
-- The sequence of outreach touches to a lead of a campaign, outreach/marketing_agent.py.
pub mod Sequence
pub mod Claim
pub mod Eligibility
pub mod Reservation
pub mod Skips
mod Tests
