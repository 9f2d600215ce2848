-- ===== src/Drafts.antt =====
-- services/draft_service.py: drafts of outbound messages, their review, their schedule and the
-- scheduler that sends them. The operations are in the modules `Replies` to `Requests`, the proofs
-- in the modules after them.
pub mod Replies
pub mod Times
pub mod Send
pub mod Finish
pub mod Sending
pub mod Claims
pub mod Review
pub mod Edit
pub mod Scheduler
pub mod Attachments
pub mod Uploads
pub mod Requests
pub mod Invariants
pub mod Histories
pub mod Lifecycle
pub mod Final
pub mod Attempts
pub mod Authority
pub mod Batches
pub mod Races
pub mod Deletion
pub mod Recovery
mod Tests
