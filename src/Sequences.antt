-- ===== src/Sequences.antt =====
-- The steps of a campaign, services/sequence_service.py.
pub mod Replace
pub mod References
pub mod Subject
pub mod Followups
pub mod Drafted
pub mod Repeats
pub mod Upcoming
mod Tests
