-- ===== src/Tenancy.antt =====
-- The plans of the organizations, services/tenant_service.py.
pub mod Routing
pub mod Allowance
pub mod Users
pub mod Access
pub mod Owners
pub mod Modes
pub mod Plans
pub mod Change
pub mod Selection
mod Tests
