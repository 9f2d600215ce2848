-- ===== src/Contexts.antt =====
-- services/campaign_context_service.py: what an answer of a lead changes. `record_outbound` stands with
-- the drafts.
pub mod Inbound
pub mod Halt
mod Tests
