-- ===== src/Api.antt =====
pub mod Auth
pub mod Orgs
pub mod Invites
pub mod Identity
pub mod Accounts
pub mod Routes
pub mod Queries
pub mod Reports
pub mod Team
pub mod Billing
pub mod Endpoints
