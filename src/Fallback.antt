-- ===== src/Fallback.antt =====
-- The fallback between providers of language models, utils/model_fallback.py.
pub mod Models
pub mod Loop
pub mod Outcome
pub mod Blacklisting
mod Tests
