-- ===== src/Gateway.antt =====
-- tools/send_email.py: the tests that a mail passes before a provider is called.
pub mod Wording
pub mod Gates
pub mod Counting
pub mod Policed
mod Tests
